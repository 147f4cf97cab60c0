-- ===== src/Pcap/Stream.antt =====
-- `std::ifstream::read`, as PcapParser uses it, and what it leaves in a struct.
use werk.Prelude.{ℕ, List, [], ◌++◌, Bool, true, false, leb, if◌then◌else◌, length, take, drop}

-- What is left of the file, and the state of the stream.
pub record File : Type 0 where
  pub bytes : List ℕ
  pub good : Bool

-- A stream that is not good reads nothing; one that comes to the end reads what there is, and is
-- not good any more.
unfoldable pub read : ℕ → File → List ℕ × File
read n f =
    if f.good
    then (if leb n (length f.bytes)
        then (take n f.bytes, record { bytes = drop n f.bytes; good = true })
        else (f.bytes, record { bytes = []; good = false }))
    else ([], f)

-- The bytes that are read, in front of those that stay.
unfoldable pub overwrite : List ℕ → List ℕ → List ℕ
overwrite got old = got ++ drop (length got) old
