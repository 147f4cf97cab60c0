-- ===== src/Pcap.antt =====
-- src/Werk/Data/Pcap/PcapParser.{hpp,cpp}: packets out of a capture file. The structs that are read
-- from the file are their bytes, in the order of a little-endian machine.
pub mod Stream
mod Bounds
mod Packets
mod Replayed
mod Tests
use werk.Prelude.{
  ℕ, ◌+◌, ◌*◌, ◌%◌, List, Option, none, some, Bool, true, false, ◌==◌, ltb, if◌then◌else◌, get_or,
}
use werk.Prelude.Words.{add_u64, u64_mod}
use Stream.{File, read, overwrite}

abbrev pub pcap_magic_number : ℕ
pcap_magic_number = 0xa1b2c3d4

abbrev pub pcap_ns_magic_number : ℕ
pcap_ns_magic_number = 0xa1b23c4d

-- `file` is `none` while no file is open.
pub record PcapParser : Type 0 where
  pub file : Option File
  pub file_header : List ℕ
  pub is_nanosecond : Bool
  pub record_header : List ℕ
  pub time : ℕ
  pub buffer : List ℕ

-- A uint32_t at an offset of a struct.
abbrev pub u32_at : ℕ → List ℕ → ℕ
u32_at i s =
    get_or s i 0
    + 256 * get_or s (i + 1) 0
    + 65536 * get_or s (i + 2) 0
    + 16777216 * get_or s (i + 3) 0

-- The fields of the headers.
abbrev pub magic_number : PcapParser → ℕ
magic_number p = u32_at 0 p.file_header

abbrev pub time_sec : List ℕ → ℕ
time_sec = u32_at 0

abbrev pub time_frac : List ℕ → ℕ
time_frac = u32_at 4

abbrev pub length_field : List ℕ → ℕ
length_field = u32_at 8

abbrev pub original_length : PcapParser → ℕ
original_length p = u32_at 12 p.record_header

-- The header of a file that has been opened.
unfoldable pub open_bytes : List ℕ → PcapParser → Bool × PcapParser
unfolding read overwrite
open_bytes bytes p =
    let (got, f) = read 24 (record { bytes = bytes; good = true }) in
    let header = overwrite got p.file_header in
    (
      f.good,
      record p {
        file = some f;
        file_header = header;
        is_nanosecond = u32_at 0 header == pcap_ns_magic_number;
      },
    )

-- `open`, given the file that is open, and the bytes of the new one, if it can be opened.
unfoldable pub open_from : Option File → Option (List ℕ) → PcapParser → Bool × PcapParser
unfolding open_bytes
open_from (some f) contents p = (false, p)
open_from none none p = (false, p)
open_from none (some bytes) p = open_bytes bytes p

unfoldable pub open_file : Option (List ℕ) → PcapParser → Bool × PcapParser
unfolding open_from
open_file contents p = open_from p.file contents p

unfoldable pub time_of : Bool → List ℕ → ℕ
time_of is_nanosecond header =
    add_u64 (time_sec header * 1000000000 % u64_mod)
      (if is_nanosecond then time_frac header else time_frac header * 1000 % u64_mod)

-- `moveNext` once the header has been read.
unfoldable pub read_packet : File → PcapParser → Bool × PcapParser
unfolding read overwrite time_of
read_packet f p =
    if f.good
    then (if ltb 65535 (length_field p.record_header)
        then (false, record p { file = some f })
        else (let (got, f') = read (length_field p.record_header) f in
            (
              f'.good,
              record p {
                file = some f';
                time = time_of p.is_nanosecond p.record_header;
                buffer = overwrite got p.buffer;
              },
            )))
    else (false, record p { file = some f })

-- `moveNext`, given the file that is open; a stream that is not open reads nothing.
unfoldable pub move_next_from : Option File → PcapParser → Bool × PcapParser
unfolding read_packet read overwrite
move_next_from none p = (false, p)
move_next_from (some f) p =
    let (got, f') = read 16 f in
    read_packet f' (record p { record_header = overwrite got p.record_header })

unfoldable pub move_next : PcapParser → Bool × PcapParser
unfolding move_next_from
move_next p = move_next_from p.file p

unfoldable pub close_file : PcapParser → PcapParser
close_file p = record p { file = none }
