-- ===== src/Pcap/Tests.antt =====
-- Capture files of a few packets.
use werk.Prelude.{
  ℕ, zero, suc, ◌≡◌, refl, ap, true, false, none, some, List, [], ◌∷◌, ◌++◌, arith, length,
}
use werk.Pcap.{PcapParser, open_file}
use werk.Pcap.Bounds.{IsSized, open_at, next, close, calls, calls-IsSized}
use werk.Replayer.Alone.{replay_alone}
use werk.Pcap.Replayed.{pcap_series, replayed-shifted}
use werk.Pcap.Packets.{
  stream, Packet, header_bytes, packets_bytes, shown, read_all, read_all-written,
}

unfoldable zeros : ℕ → List ℕ
zeros zero = []
zeros (suc n) = 0 ∷ zeros n

length-zeros : (n : ℕ) → length (zeros n) ≡ n
unfolding zeros
length-zeros zero = refl
length-zeros (suc n) = ap suc (length-zeros n)

abbrev packets : List Packet
packets =
    record { sec = 3; frac = 999999; original = 70000; data_bytes = 1 ∷ 2 ∷ 3 ∷ [] }
    ∷ record { sec = 4294967295; frac = 5; original = 0; data_bytes = [] }
    ∷ []

abbrev fresh : PcapParser
fresh = record {
  file = none;
  file_header = [];
  is_nanosecond = false;
  record_header = [];
  time = 0;
  buffer = [];
}

read_all-written_example :
    let (success, p') =
      open_file (some (header_bytes false (zeros 20) ++ packets_bytes packets)) fresh in
    (success ≡ true)
    × (read_all 3 p'
        ≡ (3999999000, 3, 70000, 1 ∷ 2 ∷ 3 ∷ []) ∷ (4294967295000005000, 0, 0, []) ∷ [])
unfolding zeros
read_all-written_example = read_all-written false (zeros 20) packets fresh refl refl (
  record { sec = omega arith; frac = omega arith; original = omega arith; fits = omega arith },
  (
    record { sec = omega arith; frac = omega arith; original = omega arith; fits = omega arith },
    tt,
  ),
)

-- At the event of the first packet, at 3.999999 s, the parser has the second one.
replayed-shifted_example :
    replay_alone pcap_series shown 2 (record fresh { file = some (stream (packets_bytes packets)) })
    ≡ some (
        (3999999000, (4294967295000005000, 0, 0, []))
        ∷ (4294967295000005000, (4294967295000005000, 0, 0, []))
        ∷ [])
replayed-shifted_example =
    replayed-shifted
      (record { sec = 3; frac = 999999; original = 70000; data_bytes = 1 ∷ 2 ∷ 3 ∷ [] })
      (record { sec = 4294967295; frac = 5; original = 0; data_bytes = [] } ∷ [])
      (record fresh { file = some (stream (packets_bytes packets)) }) refl
      (
        record {
          sec = omega arith;
          frac = omega arith;
          original = omega arith;
          fits = omega arith;
        },
        (
          record {
            sec = omega arith;
            frac = omega arith;
            original = omega arith;
            fits = omega arith;
          },
          tt,
        ),
      )
      (omega arith)

abbrev sized : PcapParser
sized = record {
  file = none;
  file_header = zeros 24;
  is_nanosecond = false;
  record_header = zeros 16;
  time = 0;
  buffer = zeros 65536;
}

calls-IsSized_example :
    IsSized (calls (open_at (some (1 ∷ 2 ∷ [])) ∷ next ∷ close ∷ open_at none ∷ []) sized)
calls-IsSized_example =
    calls-IsSized (open_at (some (1 ∷ 2 ∷ [])) ∷ next ∷ close ∷ open_at none ∷ []) sized (record {
      file_header = length-zeros 24;
      record_header = length-zeros 16;
      buffer = length-zeros 65536;
    })
