-- ===== src/Pcap/Replayed.antt =====
-- The packets that the main action of a replay finds in the parser at each event.
use werk.Series.{Series}
use werk.Replayer.Events.{Forwards}
use werk.Replayer.Alone.{
  replay_alone, execute_all, execute_at, from_first, prepend, add_source, add_source-kept,
  add_source-ends,
}
use werk.Prelude.{
  refl, false, map, true, ◌≤◌, arith, ℕ, suc, ◌≡◌, ap, ap₂, ◌∙◌, Bool, some, List, [], ◌∷◌, length,
  All,
}
use werk.Pcap.Stream.{read, overwrite}
use werk.Pcap.{PcapParser, read_packet, move_next_from, move_next, false}
use werk.Pcap.Packets.{
  Packet, IsPacket, Shown, shown, packet_shown, packets_bytes, stream, behind, shown-behind,
  move_next_from-packet,
}

-- `PcapParser` as a `TimeSeries`; a move does not throw.
abbrev pub pcap_series : Series PcapParser
pcap_series = record { time = λ p. p.time; move_next = λ p. some (move_next p) }

-- Each packet's time with the packet behind it, and the last one's with itself.
abbrev pub shifted : Bool → Packet → List Packet → List (ℕ × Shown)
shifted nanosecond k [] = ((packet_shown nanosecond k).0, packet_shown nanosecond k) ∷ []
shifted nanosecond k (j ∷ ks) =
    ((packet_shown nanosecond k).0, packet_shown nanosecond j) ∷ shifted nanosecond j ks

abbrev packet_time : Bool → Packet → ℕ
packet_time nanosecond k = (packet_shown nanosecond k).0

-- The times of packets go forward from a time, and are not 0.
abbrev pub GoForward : Bool → ℕ → List Packet → Type 0
GoForward nanosecond t ks = Forwards t (map (packet_time nanosecond) ks)

move_next-behind :
    (k : Packet) (ks : List Packet) (p : PcapParser)
    → p.file ≡ some (stream (packets_bytes (k ∷ ks)))
    → IsPacket k
    → some (move_next p) ≡ some (true, behind k (packets_bytes ks) p)
unfolding move_next
move_next-behind k ks p e h =
    ap some (ap (λ o. move_next_from o p) e ∙ move_next_from-packet k (packets_bytes ks) p h)

time-behind :
    (k : Packet) (ks : List Packet) (p : PcapParser)
    → IsPacket k
    → (behind k (packets_bytes ks) p).time ≡ packet_time p.is_nanosecond k
time-behind k ks p h = ap (λ s. s.0) (shown-behind k (packets_bytes ks) p h)

add_source-behind :
    (k : Packet) (ks : List Packet) (p : PcapParser)
    → p.file ≡ some (stream (packets_bytes (k ∷ ks)))
    → IsPacket k
    → p.time ≤ packet_time p.is_nanosecond k
    → 1 ≤ packet_time p.is_nanosecond k
    → add_source pcap_series shown p ≡ some (true, behind k (packets_bytes ks) p)
add_source-behind k ks p e h le positive =
    let t = time-behind k ks p h in
    add_source-kept pcap_series shown p (behind k (packets_bytes ks) p)
      (move_next-behind k ks p e h) (omega arith) (omega arith)

add_source-last :
    (k : Packet) (p : PcapParser)
    → IsPacket k
    → (p' : PcapParser) × (add_source pcap_series shown (behind k [] p) ≡ some (false, p'))
      × (shown p' ≡ packet_shown p.is_nanosecond k)
unfolding move_next move_next_from read_packet read overwrite
add_source-last k p h =
    let p' = (move_next (behind k [] p)).1 in
    (p', add_source-ends pcap_series shown (behind k [] p) p' refl, shown-behind k [] p h)

execute_all-shifted :
    (k : Packet) (ks : List Packet) (p : PcapParser)
    → IsPacket k
    → All IsPacket ks
    → GoForward p.is_nanosecond (packet_time p.is_nanosecond k) ks
    → execute_all pcap_series shown (suc (length ks)) (behind k (packets_bytes ks) p)
      ≡ some (shifted p.is_nanosecond k ks)
unfolding execute_all
execute_all-shifted k [] p h hs f =
    let (p', ends, last) = add_source-last k p h in
    ap (λ r. execute_at pcap_series shown (behind k [] p).time r (execute_all pcap_series shown 0))
      ends
    ∙ ap₂ (λ t s. some ((t, s) ∷ [])) (time-behind k [] p h) last
execute_all-shifted k (j ∷ ks) p h hs f =
    let at = behind k (packets_bytes (j ∷ ks)) p in
    let t = time-behind k (j ∷ ks) p h in
    ap
      (λ r.
        execute_at pcap_series shown at.time r (execute_all pcap_series shown (suc (length ks))))
      (add_source-behind j ks at refl hs.0 (omega (arith, t, f.0)) f.1)
    ∙ ap (prepend pcap_series shown (at.time, shown (behind j (packets_bytes ks) at)))
        (execute_all-shifted j ks at hs.0 hs.1 f.2)
    ∙ ap₂ (λ u s. some ((u, s) ∷ shifted p.is_nanosecond j ks)) t
        (shown-behind j (packets_bytes ks) at hs.0)

-- A replay without a timeout of a parser alone that stands at the first of the packets that a
-- capture file was written from, whose numbers are of 32 bits, whose data are no longer than 65535
-- bytes, and whose times do not go back and are not 0: each packet is an event at its time, but
-- there the main action finds in the parser the packet behind it, which has taken the place of its
-- own lengths and data, and at the last one that one.
pub replayed-shifted :
    (k : Packet) (ks : List Packet) (p : PcapParser)
    → p.file ≡ some (stream (packets_bytes (k ∷ ks)))
    → All IsPacket (k ∷ ks)
    → GoForward p.is_nanosecond p.time (k ∷ ks)
    → replay_alone pcap_series shown (suc (length ks)) p ≡ some (shifted p.is_nanosecond k ks)
unfolding replay_alone
replayed-shifted k ks p e h f =
    ap (λ r. from_first pcap_series shown r (execute_all pcap_series shown (suc (length ks))))
      (add_source-behind k ks p e h.0 f.0 f.1)
    ∙ execute_all-shifted k ks p h.0 h.1 f.2
