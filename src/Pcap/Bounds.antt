-- ===== src/Pcap/Bounds.antt =====
-- No file makes the parser write behind its buffer or its headers.
use werk.Prelude.{
  ℕ, zero, suc, ◌-◌, ◌≤◌, ◌≡◌, ◌∙◌, sym, subst, List, [], ◌∷◌, Option, none, some, Bool, true,
  false, ltb, length, length-append, take, drop, arith, Bool-cases, inl, inr, if-false, if-true,
}
use werk.Pcap.Stream.{File, read, overwrite}
use werk.Pcap.{
  PcapParser, open_file, read_packet, move_next_from, open_from, open_bytes, move_next, close_file,
  length_field, open_bytes,
}

length-drop : {A : Type 0} (n : ℕ) (xs : List A) → length (drop n xs) ≡ length xs - n
length-drop zero xs = omega arith
length-drop (suc n) [] = omega arith
length-drop (suc n) (x ∷ xs) = omega (arith, length-drop n xs)

length-take : {A : Type 0} (n : ℕ) (xs : List A) → length (take n xs) ≤ n
length-take zero xs = omega arith
length-take (suc n) [] = omega arith
length-take (suc n) (x ∷ xs) = omega (arith, length-take n xs)

length-overwrite :
    (got old : List ℕ) → length got ≤ length old → length (overwrite got old) ≡ length old
unfolding overwrite
length-overwrite got old h =
    omega (arith, length-append got (drop (length got) old), length-drop (length got) old)

length-read : (n : ℕ) (f : File) → length (read n f).0 ≤ n
unfolding read
length-read n f = ground (arith, length-take n f.bytes)

-- The buffer and the structs keep their sizes.
pub record IsSized (p : PcapParser) : Type 0 where
  pub file_header : length p.file_header ≡ 24
  pub record_header : length p.record_header ≡ 16
  pub buffer : length p.buffer ≡ 65536

abbrev Keeps : Bool × PcapParser → Type 0
Keeps (success, p) = IsSized p

-- The sizes say nothing of the file or the time.
same-IsSized :
    (p : PcapParser) (f : Option File) (t : ℕ) (b : List ℕ)
    → IsSized p
    → length b ≡ 65536
    → IsSized (record p { file = f; time = t; buffer = b })
same-IsSized p f t b s h = record {
  file_header = s.file_header;
  record_header = s.record_header;
  buffer = h;
}

read_packet-IsSized : (f : File) (p : PcapParser) → IsSized p → IsSized (read_packet f p).1
unfolding read_packet
read_packet-IsSized f p s = elim (Bool-cases f.good) [
  | inr e ↦
      subst Keeps (sym (if-false f.good _ _ e)) (same-IsSized p (some f) p.time p.buffer s s.buffer)
  | inl e ↦
      subst Keeps (sym (if-true f.good _ _ e))
        (elim (Bool-cases (ltb 65535 (length_field p.record_header))) [
          | inl l ↦
              subst Keeps (sym (if-true _ _ _ l))
                (same-IsSized p (some f) p.time p.buffer s s.buffer)
          | inr l ↦ subst Keeps (sym (if-false _ _ _ l)) (
              same-IsSized p _ _ (overwrite (read (length_field p.record_header) f).0 p.buffer) s (
                length-overwrite (read (length_field p.record_header) f).0 p.buffer
                  (fits (length_field p.record_header) l)
                ∙ s.buffer))
        ])
]
  where
    fits : (n : ℕ) → ltb 65535 n ≡ false → length (read n f).0 ≤ length p.buffer
    fits n l = ground (arith, length-read n f, s.buffer)

move_next_from-IsSized :
    (o : Option File) (p : PcapParser) → IsSized p → IsSized (move_next_from o p).1
unfolding move_next_from
move_next_from-IsSized none p s = s
move_next_from-IsSized (some f) p s =
    read_packet-IsSized (read 16 f).1
      (record p { record_header = overwrite (read 16 f).0 p.record_header })
      (record {
        file_header = s.file_header;
        record_header =
            length-overwrite (read 16 f).0 p.record_header
              (omega (arith, length-read 16 f, s.record_header))
            ∙ s.record_header;
        buffer = s.buffer;
      })

open_from-IsSized :
    (o : Option File) (contents : Option (List ℕ)) (p : PcapParser)
    → IsSized p
    → IsSized (open_from o contents p).1
unfolding open_from open_bytes
open_from-IsSized (some f) contents p s = s
open_from-IsSized none none p s = s
open_from-IsSized none (some bytes) p s =
    let f : File = record { bytes = bytes; good = true } in
    record {
      file_header =
          length-overwrite (read 24 f).0 p.file_header
            (omega (arith, length-read 24 f, s.file_header))
          ∙ s.file_header;
      record_header = s.record_header;
      buffer = s.buffer;
    }

-- Uses of a parser, with the files that it finds.
pub data Call : Type 0 where
  open_at : Option (List ℕ) → Call
  next close : Call

abbrev pub call : Call → PcapParser → PcapParser
call (open_at contents) p = (open_file contents p).1
call next p = (move_next p).1
call close p = close_file p

abbrev pub calls : List Call → PcapParser → PcapParser
calls [] p = p
calls (c ∷ cs) p = calls cs (call c p)

-- Whatever files are opened and however they are read, the buffer and the structs keep their
-- sizes: the parser never writes behind them.
pub calls-IsSized : (cs : List Call) (p : PcapParser) → IsSized p → IsSized (calls cs p)
unfolding close_file open_file move_next
calls-IsSized [] p s = s
calls-IsSized (open_at contents ∷ cs) p s =
    calls-IsSized cs (open_file contents p).1 (open_from-IsSized p.file contents p s)
calls-IsSized (next ∷ cs) p s = calls-IsSized cs (move_next p).1 (move_next_from-IsSized p.file p s)
calls-IsSized (close ∷ cs) p s =
    calls-IsSized cs (close_file p)
      (record { file_header = s.file_header; record_header = s.record_header; buffer = s.buffer })
