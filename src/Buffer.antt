-- ===== src/Buffer.antt =====
-- _include/hao_buffer.h and app/util/hao_buffer.cpp: a growing byte buffer with room in front. A
-- pointer into the readable part is an index from its start. `none` is a fault, a copy to a place outside
-- the array. An integer of w bytes is its unsigned
-- value, below 256 ^ w.
pub mod Contents
pub mod Queue
pub mod Integers
use hao_server.Base.{
  ◌>>=◌, ℕ, zero, suc, ◌+◌, ◌-◌, ◌*◌, ◌/◌, ◌%◌, ◌^◌, List, [], ◌∷◌, ◌++◌, Bool, true, false, Option,
  none, some, map, length, take, drop, replicate, overwrite, get_or, ltb, leb, ◌==◌, ◌&&◌,
  if◌then◌else◌,
}

-- kInitialSize and kCheapPrepend
abbrev pub initial_size : ℕ
initial_size = 1024

abbrev pub cheap_prepend : ℕ
cheap_prepend = 8

pub record Buffer : Type 0 where
  pub buffer : List ℕ
  pub reader_index : ℕ
  pub writer_index : ℕ

-- Buffer::Buffer
abbrev pub new_buffer : ℕ → Buffer
new_buffer size = record {
  buffer = replicate (cheap_prepend + size) 0;
  reader_index = cheap_prepend;
  writer_index = cheap_prepend;
}

abbrev pub readable_bytes : Buffer → ℕ
readable_bytes b = b.writer_index - b.reader_index

abbrev pub writeable_bytes : Buffer → ℕ
writeable_bytes b = length b.buffer - b.writer_index

abbrev pub prependable_bytes : Buffer → ℕ
prependable_bytes b = b.reader_index

-- Buffer::ToStringView
unfoldable pub to_string_view : Buffer → List ℕ
to_string_view b = take (readable_bytes b) (drop b.reader_index b.buffer)

-- vector::resize
unfoldable pub resize : ℕ → List ℕ → List ℕ
resize n xs = take n xs ++ replicate (n - length xs) 0

-- std::copy to index `i` and the ones behind it
unfoldable pub copied : List ℕ → ℕ → List ℕ → Option (List ℕ)
copied xs i ys = if leb (i + length ys) (length xs) then some (overwrite xs i ys) else none

-- Buffer::MakeSpace
unfoldable pub make_space : ℕ → Buffer → Option Buffer
make_space len b =
    if ltb (writeable_bytes b + prependable_bytes b) (len + cheap_prepend)
    then some (record b { buffer = resize (b.writer_index + len) b.buffer })
    else (copied b.buffer cheap_prepend (to_string_view b) >>= λ xs. some (record {
      buffer = xs;
      reader_index = cheap_prepend;
      writer_index = cheap_prepend + readable_bytes b;
    }))

-- Buffer::EnsureWritableBytes
unfoldable pub ensure_writable_bytes : ℕ → Buffer → Option Buffer
ensure_writable_bytes len b = if ltb (writeable_bytes b) len then make_space len b else some b

-- Buffer::HasWritten and Buffer::UnWrite
abbrev pub has_written : ℕ → Buffer → Buffer
has_written len b = record b { writer_index = b.writer_index + len }

abbrev pub un_write : ℕ → Buffer → Buffer
un_write len b = record b { writer_index = b.writer_index - len }

-- The copy to BeginWrite and the move of the writer index
unfoldable pub write : List ℕ → Buffer → Option Buffer
write bytes b = copied b.buffer b.writer_index bytes >>= λ xs.
    some (has_written (length bytes) (record b { buffer = xs }))

-- Buffer::Append
unfoldable pub append : List ℕ → Buffer → Option Buffer
append bytes b = ensure_writable_bytes (length bytes) b >>= λ r. write bytes r

-- Buffer::RetrieveAll
abbrev pub retrieve_all : Buffer → Buffer
retrieve_all b = record b { reader_index = cheap_prepend; writer_index = cheap_prepend }

-- Buffer::Retrieve; RetrieveUtil is the same for a pointer.
unfoldable pub retrieve : ℕ → Buffer → Buffer
retrieve len b =
    if ltb len (readable_bytes b)
    then record b { reader_index = b.reader_index + len }
    else retrieve_all b

-- Buffer::RetrieveAsString, for at most as many bytes as there are, and RetrieveAllAsString
unfoldable pub retrieve_as_string : ℕ → Buffer → List ℕ × Buffer
retrieve_as_string len b = (take len (drop b.reader_index b.buffer), retrieve len b)

abbrev pub retrieve_all_as_string : Buffer → List ℕ × Buffer
retrieve_all_as_string b = retrieve_as_string (readable_bytes b) b

-- Buffer::Prepend. More bytes than there is room for in front would be copied to before the array.
unfoldable pub prepend : List ℕ → Buffer → Option Buffer
prepend bytes b =
    let i = b.reader_index - length bytes in
    if leb (length bytes) b.reader_index
    then (copied b.buffer i bytes >>= λ xs. some (record b { buffer = xs; reader_index = i }))
    else none

-- Buffer::Shrink
unfoldable pub shrink : ℕ → Buffer → Option Buffer
shrink reserve b =
    ensure_writable_bytes (readable_bytes b + reserve) (new_buffer initial_size) >>= λ r.
    append (to_string_view b) r

-- Buffer::ReadFd, after readv has taken in these bytes: what does not fit comes from extra_buf.
unfoldable pub read_fd : List ℕ → Buffer → Option Buffer
read_fd bytes b =
    let n = writeable_bytes b in
    if leb (length bytes) n
    then write bytes b
    else (write (take n bytes) b >>= λ c. append (drop n bytes) c)

-- The index of the first newline, as memchr finds it: Buffer::FindEOL.
pub find_byte : ℕ → List ℕ → Option ℕ
find_byte c [] = none
find_byte c (x ∷ xs) = let rest = find_byte c xs in if x == c then some 0 else map_suc rest
  where
    map_suc : Option ℕ → Option ℕ
    map_suc none = none
    map_suc (some i) = some (suc i)

abbrev pub find_eol : Buffer → Option ℕ
find_eol b = find_byte 10 (to_string_view b)

-- htobe16, htobe32 and htobe64 as bytes in memory: `w` bytes, the lowest last
unfoldable pub big_endian : ℕ → ℕ → List ℕ
big_endian zero v = []
big_endian (suc w) v = big_endian w (v / 256) ++ v % 256 ∷ []

-- The value of bytes, the lowest last, behind those whose value is `high`
pub value_after : ℕ → List ℕ → ℕ
value_after high [] = high
value_after high (x ∷ xs) = value_after (high * 256 + x) xs

abbrev pub from_bytes : List ℕ → ℕ
from_bytes bytes = value_after 0 bytes

-- Buffer::AppendInt8 and its like for w bytes
abbrev pub append_int : ℕ → ℕ → Buffer → Option Buffer
append_int w v b = append (big_endian w v) b

-- Buffer::PrependInt8 and its like
abbrev pub prepend_int : ℕ → ℕ → Buffer → Option Buffer
prepend_int w v b = prepend (big_endian w v) b

-- Buffer::PeekInt8, PeekInt16 and PeekInt32
unfoldable pub peek_int : ℕ → Buffer → ℕ
peek_int w b = from_bytes (take w (drop b.reader_index b.buffer))

-- Buffer::PeekInt64: be32toh keeps the low four bytes in memory, which are the first ones.
unfoldable pub peek_int64 : Buffer → ℕ
peek_int64 b = from_bytes (take 4 (take 8 (drop b.reader_index b.buffer)))

-- Buffer::ReadInt8, ReadInt16 and ReadInt32
unfoldable pub read_int : ℕ → Buffer → ℕ × Buffer
read_int w b = (peek_int w b, retrieve w b)

-- Buffer::ReadInt64
unfoldable pub read_int64 : Buffer → ℕ × Buffer
read_int64 b = (peek_int64 b, retrieve 8 b)
