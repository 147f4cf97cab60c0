-- ===== src/Pcap/Packets.antt =====
-- Capture files as they are written, and what `moveNext` makes of their packets.
use werk.Prelude.{
  ℕ, zero, suc, ◌+◌, ◌*◌, ◌/◌, ◌%◌, ◌^◌, ◌≤◌, ◌<◌, ◌≡◌, refl, sym, ap, ap₂, ◌∙◌, subst, Bool, true,
  false, none, some, List, [], ◌∷◌, ◌++◌, arith, ltb, leb, ◌==◌, if◌then◌else◌, if-true, if-false,
  length, take, drop, All, length-append,
}
use werk.Prelude.Words.{add_u64, u64_mod}
use werk.Pcap.Stream.{File, read, overwrite}
use werk.Pcap.{
  PcapParser, open_file, open_from, open_bytes, read_packet, move_next_from, move_next, u32_at,
  time_of, time_sec, time_frac, length_field, original_length, pcap_ns_magic_number,
  pcap_magic_number,
}

pub record Packet : Type 0 where
  pub sec : ℕ
  pub frac : ℕ
  pub original : ℕ
  pub data_bytes : List ℕ

-- A uint32_t as it stands in the file.
abbrev pub u32_bytes : ℕ → List ℕ
u32_bytes n = n % 256 ∷ n / 256 % 256 ∷ n / 65536 % 256 ∷ n / 16777216 % 256 ∷ []

u32_at-bytes : (n : ℕ) → n < 2 ^ 32 → u32_at 0 (u32_bytes n) ≡ n
u32_at-bytes n h = omega arith

abbrev pub record_bytes : Packet → List ℕ
record_bytes k =
    u32_bytes k.sec
    ++ (u32_bytes k.frac ++ (u32_bytes (length k.data_bytes) ++ u32_bytes k.original))

abbrev pub packets_bytes : List Packet → List ℕ
packets_bytes [] = []
packets_bytes (k ∷ ks) = record_bytes k ++ (k.data_bytes ++ packets_bytes ks)

-- What fits into the headers and the buffer.
pub record IsPacket (k : Packet) : Type 0 where
  pub sec : k.sec < 2 ^ 32
  pub frac : k.frac < 2 ^ 32
  pub original : k.original < 2 ^ 32
  pub fits : length k.data_bytes ≤ 65535

-- What the parser shows of a packet: the time, the lengths and the data.
abbrev pub Shown : Type 0
Shown = ℕ × ℕ × ℕ × List ℕ

abbrev pub shown : PcapParser → Shown
shown p = (
  p.time,
  length_field p.record_header,
  original_length p,
  take (length_field p.record_header) p.buffer,
)

abbrev pub packet_shown : Bool → Packet → Shown
packet_shown nanosecond k = (
  k.sec * 1000000000 + (if nanosecond then k.frac else k.frac * 1000),
  length k.data_bytes,
  k.original,
  k.data_bytes,
)

take-append : (xs ys : List ℕ) → take (length xs) (xs ++ ys) ≡ xs
take-append [] ys = refl
take-append (x ∷ xs) ys = ap (λ r. x ∷ r) (take-append xs ys)

drop-append : (xs ys : List ℕ) → drop (length xs) (xs ++ ys) ≡ ys
drop-append [] ys = refl
drop-append (x ∷ xs) ys = drop-append xs ys

abbrev pub stream : List ℕ → File
stream bytes = record { bytes = bytes; good = true }

read-append : (xs rest : List ℕ) → read (length xs) (stream (xs ++ rest)) ≡ (xs, stream rest)
unfolding read
read-append xs rest =
    if-true (leb (length xs) (length (xs ++ rest))) _ _ (ground (arith, length-append xs rest))
    ∙ ap₂ (λ a b. (a, stream b)) (take-append xs rest) (drop-append xs rest)

-- The fields of a header that has been read over an old one.
header_fields :
    (k : Packet) (old : List ℕ)
    → IsPacket k
    → let h = overwrite (record_bytes k) old in
      (time_sec h ≡ k.sec)
      × (time_frac h ≡ k.frac)
      × (length_field h ≡ length k.data_bytes)
      × (u32_at 12 h ≡ k.original)
unfolding overwrite
header_fields k old h = (
  u32_at-bytes k.sec h.sec,
  u32_at-bytes k.frac h.frac,
  u32_at-bytes (length k.data_bytes) (omega (arith, h.fits)),
  u32_at-bytes k.original h.original,
)

time_of-packet :
    (nanosecond : Bool) (k : Packet) (old : List ℕ)
    → IsPacket k
    → time_of nanosecond (overwrite (record_bytes k) old)
      ≡ k.sec * 1000000000 + (if nanosecond then k.frac else k.frac * 1000)
unfolding time_of
time_of-packet nanosecond k old h =
    let fields = header_fields k old h in rw (fields.0, fields.1) (in_range nanosecond)
  where
    in_range :
        (b : Bool)
        → add_u64 (k.sec * 1000000000 % u64_mod) (if b then k.frac else k.frac * 1000 % u64_mod)
          ≡ k.sec * 1000000000 + (if b then k.frac else k.frac * 1000)
    in_range true = omega (arith, h.sec, h.frac)
    in_range false = omega (arith, h.sec, h.frac)

-- The parser behind a packet.
abbrev pub behind : Packet → List ℕ → PcapParser → PcapParser
behind k rest p = record p {
  file = some (stream rest);
  record_header = overwrite (record_bytes k) p.record_header;
  time = time_of p.is_nanosecond (overwrite (record_bytes k) p.record_header);
  buffer = overwrite k.data_bytes p.buffer;
}

read-packet :
    (k : Packet) (old rest : List ℕ)
    → IsPacket k
    → read (length_field (overwrite (record_bytes k) old)) (stream (k.data_bytes ++ rest))
      ≡ (k.data_bytes, stream rest)
read-packet k old rest h =
    ap (λ n. read n (stream (k.data_bytes ++ rest))) (header_fields k old h).2
    ∙ read-append k.data_bytes rest

read_packet-behind :
    (k : Packet) (rest : List ℕ) (p : PcapParser)
    → IsPacket k
    → read_packet
        (stream (k.data_bytes ++ rest))
        (record p { record_header = overwrite (record_bytes k) p.record_header })
      ≡ (true, behind k rest p)
unfolding read_packet
read_packet-behind k rest p h =
    if-false (ltb 65535 (length_field (overwrite (record_bytes k) p.record_header))) _ _
      (ap (ltb 65535) (header_fields k p.record_header h).2 ∙ small)
    ∙ ap
        (λ r. (
          r.1.good,
          record p {
            file = some r.1;
            record_header = overwrite (record_bytes k) p.record_header;
            time = time_of p.is_nanosecond (overwrite (record_bytes k) p.record_header);
            buffer = overwrite r.0 p.buffer;
          },
        ))
        (read-packet k p.record_header rest h)
  where
    small : ltb 65535 (length k.data_bytes) ≡ false
    small = ground (arith, h.fits)

pub move_next_from-packet :
    (k : Packet) (rest : List ℕ) (p : PcapParser)
    → IsPacket k
    → move_next_from (some (stream (record_bytes k ++ (k.data_bytes ++ rest)))) p
      ≡ (true, behind k rest p)
unfolding move_next_from
move_next_from-packet k rest p h =
    ap (λ r. read_packet r.1 (record p { record_header = overwrite r.0 p.record_header }))
      (read-append (record_bytes k) (k.data_bytes ++ rest))
    ∙ read_packet-behind k rest p h

pub shown-behind :
    (k : Packet) (rest : List ℕ) (p : PcapParser)
    → IsPacket k
    → shown (behind k rest p) ≡ packet_shown p.is_nanosecond k
unfolding overwrite
shown-behind k rest p h =
    rw
      (
        time_of-packet p.is_nanosecond k p.record_header h,
        (header_fields k p.record_header h).2,
        (header_fields k p.record_header h).3,
        take-append k.data_bytes (drop (length k.data_bytes) p.buffer),
      )
      refl

-- Reading until `moveNext` fails, on fuel.
abbrev pub read_all : ℕ → PcapParser → List Shown
read_all zero p = []
read_all (suc n) p =
    let (success, p') = move_next p in
    let later = read_all n p' in if success then shown p' ∷ later else []

abbrev pub all_shown : Bool → List Packet → List Shown
all_shown nanosecond [] = []
all_shown nanosecond (k ∷ ks) = packet_shown nanosecond k ∷ all_shown nanosecond ks

read_all-packets :
    (ks : List Packet) (p : PcapParser)
    → p.file ≡ some (stream (packets_bytes ks))
    → All IsPacket ks
    → read_all (suc (length ks)) p ≡ all_shown p.is_nanosecond ks
unfolding move_next move_next_from read_packet read
read_all-packets [] p e h =
    ap (λ o. (let r = move_next_from o p in if r.0 then shown r.1 ∷ [] else [])) e
read_all-packets (k ∷ ks) p e h =
    ap (λ r. if r.0 then shown r.1 ∷ read_all (suc (length ks)) r.1 else [])
      (ap (λ o. move_next_from o p) e ∙ move_next_from-packet k (packets_bytes ks) p h.0)
    ∙ ap (λ s. s ∷ read_all (suc (length ks)) (behind k (packets_bytes ks) p))
        (shown-behind k (packets_bytes ks) p h.0)
    ∙ ap (λ r. packet_shown p.is_nanosecond k ∷ r)
        (read_all-packets ks (behind k (packets_bytes ks) p) refl h.1)

-- The header of a capture file: the magic number, and the fields that the parser only keeps.
abbrev pub header_bytes : Bool → List ℕ → List ℕ
header_bytes nanosecond others =
    u32_bytes (if nanosecond then pcap_ns_magic_number else pcap_magic_number) ++ others

-- A capture file that was written from packets, whose numbers are of 32 bits and whose data are no
-- longer than 65535 bytes, opens, and reading it gives every packet's time in nanoseconds, its
-- lengths and its data, in order, and then fails; this holds for either resolution of times, and
-- whatever the other 20 bytes of the header are.
pub read_all-written :
    (nanosecond : Bool) (others : List ℕ) (ks : List Packet) (p : PcapParser)
    → length others ≡ 20
    → p.file ≡ none
    → All IsPacket ks
    → let (success, p') = open_file (some (header_bytes nanosecond others ++ packets_bytes ks)) p in
      (success ≡ true) × (read_all (suc (length ks)) p' ≡ all_shown nanosecond ks)
unfolding open_file open_from open_bytes
read_all-written nanosecond others ks p len closed h = subst (Reads nanosecond) (sym opened) (
  refl,
  read_all-packets ks (started nanosecond) refl h ∙ ap (λ b. all_shown b ks) (magic nanosecond),
)
  where
    Reads : Bool → Bool × PcapParser → Type 0
    Reads b (success, p') = (success ≡ true) × (read_all (suc (length ks)) p' ≡ all_shown b ks)

    started : Bool → PcapParser
    started b = record p {
      file = some (stream (packets_bytes ks));
      file_header = overwrite (header_bytes b others) p.file_header;
      is_nanosecond =
          u32_at 0 (overwrite (header_bytes b others) p.file_header) == pcap_ns_magic_number;
    }

    magic : (b : Bool) → (started b).is_nanosecond ≡ b
    magic true = refl
    magic false = refl

    header :
        read 24 (stream (header_bytes nanosecond others ++ packets_bytes ks))
        ≡ (header_bytes nanosecond others, stream (packets_bytes ks))
    header =
        ap (λ n. read n (stream (header_bytes nanosecond others ++ packets_bytes ks)))
          (sym (ap (λ n. suc (suc (suc (suc n)))) len))
        ∙ read-append (header_bytes nanosecond others) (packets_bytes ks)

    opened :
        open_file (some (header_bytes nanosecond others ++ packets_bytes ks)) p
        ≡ (true, started nanosecond)
    opened =
        ap (λ o. open_from o (some (header_bytes nanosecond others ++ packets_bytes ks)) p) closed
        ∙ ap
            (λ r. (
              r.1.good,
              record p {
                file = some r.1;
                file_header = overwrite r.0 p.file_header;
                is_nanosecond = u32_at 0 (overwrite r.0 p.file_header) == pcap_ns_magic_number;
              },
            ))
            header
