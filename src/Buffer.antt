-- ===== src/Buffer.antt =====
-- `Buffer` of Net/Buffer.h and Net/Buffer.cpp: a byte queue in a vector with a read and a write index.
-- Pointers into the vector are indices; assertions are on. `kInitialSize` is the constructor's default.
pub mod Valid
pub mod Space
pub mod Queue
pub mod Front
pub mod Search
pub mod Socket
pub mod ReadError
use turbo_core_dist_ai_clush.Prelude.{
  ℕ, ◌+◌, ◌-◌, ◌^◌, Bool, false, Option, none, some, List, [], ◌∷◌, ◌++◌, ltb, leb, ◌==◌,
  if◌then◌else◌, length, take, drop, replicate, get_or, zero, suc, ◌&&◌,
}
use turbo_core_dist_ai_clush.Prelude.Int.{ℤ, pos, negsuc, pos_part, neg_part}
use turbo_core_dist_ai_clush.Prelude.Size.{
  add_size, sub_size, Outcome, ok, assert_failed, length_error, undefined, ◌>>=◌, ◌>>◌, assert,
  defined,
}
use turbo_core_dist_ai_clush.Protocol.Words.{write_uint32, read_uint32}

abbrev pub k_initial_size : ℕ
k_initial_size = 1024

-- What a vector of `char` can hold: the largest `ptrdiff_t`.
abbrev pub max_size : ℕ
max_size = 2 ^ 63 - 1

pub record Buffer : Type 0 where
  pub m_buf : List ℕ
  pub m_read_idx : ℕ
  pub m_write_idx : ℕ

unfoldable pub new_buffer : ℕ → Buffer
new_buffer initial_size = record {
  m_buf = replicate initial_size 0;
  m_read_idx = 0;
  m_write_idx = 0;
}

abbrev pub readable_bytes : Buffer → ℕ
readable_bytes b = sub_size b.m_write_idx b.m_read_idx

abbrev pub writable_bytes : Buffer → ℕ
writable_bytes b = sub_size (length b.m_buf) b.m_write_idx

abbrev pub prependable_bytes : Buffer → ℕ
prependable_bytes b = b.m_read_idx

-- `&m_buf[m_read_idx]`, as an index
abbrev pub peek : Buffer → ℕ
peek b = b.m_read_idx

-- `std::string(Peek(), len)`: a read of `len` bytes at an index.
unfoldable pub bytes_at : Buffer → ℕ → ℕ → Outcome (List ℕ)
bytes_at b i len = do defined (leb (i + len) (length b.m_buf)); ok (take len (drop i b.m_buf))

-- `std::copy` of bytes to an index of the vector.
unfoldable pub copy_to : List ℕ → ℕ → List ℕ → Outcome (List ℕ)
copy_to bytes i buf = do
  defined (leb (i + length bytes) (length buf))
  ok (take i buf ++ (bytes ++ drop (i + length bytes) buf))

-- The first `len` bytes at a pointer to the bytes given.
unfoldable pub source : List ℕ → ℕ → Outcome (List ℕ)
source bytes len = do defined (leb len (length bytes)); ok (take len bytes)

-- `std::vector::resize`
unfoldable pub resize : List ℕ → ℕ → Outcome (List ℕ)
resize buf n =
    if ltb max_size n then length_error else ok (take n buf ++ replicate (n - length buf) 0)

unfoldable pub retrieve : Buffer → ℕ → Outcome Buffer
retrieve b len = do
  assert (leb len (readable_bytes b))
  ok (record b { m_read_idx = add_size b.m_read_idx len })

unfoldable pub retrieve_until : Buffer → ℕ → Outcome Buffer
retrieve_until b end = do assert (leb (peek b) end); retrieve b (end - peek b)

unfoldable pub retrieve_all : Buffer → Buffer
retrieve_all b = record b { m_read_idx = 0; m_write_idx = 0 }

unfoldable pub retrieve_as_string : Buffer → ℕ → Outcome (List ℕ × Buffer)
retrieve_as_string b len = do
  assert (leb len (readable_bytes b))
  result ← bytes_at b (peek b) len
  b' ← retrieve b len
  ok (result, b')

unfoldable pub retrieve_all_as_string : Buffer → Outcome (List ℕ × Buffer)
retrieve_all_as_string b = retrieve_as_string b (readable_bytes b)

unfoldable pub has_written : Buffer → ℕ → Outcome Buffer
has_written b len = do
  assert (leb len (writable_bytes b))
  ok (record b { m_write_idx = add_size b.m_write_idx len })

-- The unread bytes move to the front where that makes room enough; else the vector grows.
unfoldable pub make_space : Buffer → ℕ → Outcome Buffer
make_space b len =
    if leb len (add_size (prependable_bytes b) (writable_bytes b))
    then (do
      unread ← bytes_at b b.m_read_idx (readable_bytes b)
      buf ← copy_to unread 0 b.m_buf
      let moved = record b { m_buf = buf; m_read_idx = 0; m_write_idx = readable_bytes b }
      assert (readable_bytes b == readable_bytes moved)
      ok moved)
    else (do buf ← resize b.m_buf (add_size b.m_write_idx len); ok (record b { m_buf = buf }))

unfoldable pub ensure_writable_bytes : Buffer → ℕ → Outcome Buffer
ensure_writable_bytes b len =
    if leb len (writable_bytes b)
    then ok b
    else (do roomy ← make_space b len; assert (leb len (writable_bytes roomy)); ok roomy)

-- The bytes that stand at `data`, of which the first `len` are copied.
unfoldable pub append : Buffer → List ℕ → ℕ → Outcome Buffer
append b bytes len = do
  roomy ← ensure_writable_bytes b len
  copied ← source bytes len
  buf ← copy_to copied roomy.m_write_idx roomy.m_buf
  ok (record roomy { m_buf = buf; m_write_idx = add_size roomy.m_write_idx len })

unfoldable pub prepend : Buffer → List ℕ → ℕ → Outcome Buffer
prepend b bytes len = do
  assert (leb len (prependable_bytes b))
  copied ← source bytes len
  buf ← copy_to copied (b.m_read_idx - len) b.m_buf
  ok (record b { m_buf = buf; m_read_idx = b.m_read_idx - len })

-- `memchr` over the bytes from index `i` on: the index of the first `c`, and the bytes behind it.
unfoldable pub memchr : ℕ → ℕ → List ℕ → Option (ℕ × List ℕ)
memchr c i [] = none
memchr c i (x ∷ xs) = if x == c then some (i, xs) else memchr c (i + 1) xs

-- `p + 1 < end && *(p + 1) == '\n'`, over the bytes behind `p`
abbrev pub starts_with_lf : List ℕ → Bool
starts_with_lf [] = false
starts_with_lf (x ∷ xs) = x == 10

-- The loop of `FindCRLF` over the bytes from `p` on, on fuel; `none` means that it ran out.
unfoldable pub crlf_loop : ℕ → ℕ → List ℕ → Option (Option ℕ)
crlf_loop zero p bytes = none
crlf_loop (suc fuel) p bytes = elim (memchr 13 p bytes) [
  | none ↦ some none
  | some (hit, rest) ↦
      let more = crlf_loop fuel (hit + 1) rest in
      if starts_with_lf rest then some (some hit) else more
]

-- The bytes from an index to the end of what can be read.
abbrev pub readable_from : Buffer → ℕ → List ℕ
readable_from b start = take (b.m_write_idx - start) (drop start b.m_buf)

-- The pointer that `memchr` returns.
abbrev pub index_of : Option (ℕ × List ℕ) → Option ℕ
index_of none = none
index_of (some (i, rest)) = some i

-- Every round passes a byte, so their number bounds the rounds.
unfoldable pub find_crlf : Buffer → ℕ → Outcome (Option (Option ℕ))
find_crlf b start = do
  assert (leb (peek b) start)
  ok (crlf_loop (suc (length (readable_from b start))) start (readable_from b start))

unfoldable pub find_eol : Buffer → ℕ → Outcome (Option ℕ)
find_eol b start = do
  assert (leb (peek b) start)
  ok (index_of (memchr 10 start (readable_from b start)))

-- A pattern of 32 bits as the `int32_t` that it stands for, and back.
abbrev pub int32_of_bits : ℕ → ℤ
int32_of_bits w = if ltb w (2 ^ 31) then pos w else negsuc (2 ^ 32 - w - 1)

abbrev pub bits_of_int32 : ℤ → ℕ
bits_of_int32 (pos n) = n
bits_of_int32 (negsuc n) = 2 ^ 32 - 1 - n

-- `ntohl` of the four bytes in memory is the big-endian word.
unfoldable pub peek_int32 : Buffer → Outcome ℤ
peek_int32 b = do word ← bytes_at b (peek b) 4; ok (int32_of_bits (read_uint32 word))

unfoldable pub append_int32 : Buffer → ℤ → Outcome Buffer
append_int32 b x = append b (write_uint32 (bits_of_int32 x) []) 4

-- What `readv` and `write` return: an error number, or the bytes read, or the count written.
pub data ReadResult : Type 0 where
  read_failed : ℕ → ReadResult
  got : List ℕ → ReadResult

pub data WriteResult : Type 0 where
  write_failed : ℕ → WriteResult
  wrote : ℕ → WriteResult

-- `sizeof(extrabuf)`
abbrev pub extra_size : ℕ
extra_size = 65536

-- The end of `ReadFromFd`: `n` is the result cast to `size_t`, `extrabuf` the buffer on the stack.
unfoldable pub finish_read : Buffer → List ℕ → ℕ → Outcome Buffer
finish_read b extrabuf n =
    if leb n (writable_bytes b)
    then ok (record b { m_write_idx = add_size b.m_write_idx n })
    else append (record b { m_write_idx = length b.m_buf }) extrabuf (sub_size n (writable_bytes b))

-- What `readv` puts into the vector: as many bytes as fit behind the write index.
unfoldable pub scatter : Buffer → List ℕ → Buffer
scatter b bytes = record b {
  m_buf =
      take b.m_write_idx b.m_buf
      ++ (take (writable_bytes b) bytes
          ++ drop (b.m_write_idx + length (take (writable_bytes b) bytes)) b.m_buf);
}

-- `ReadFromFd` on Linux. `stack` is what `extrabuf` holds before the call; `readv` puts what does
-- not fit into the vector over its beginning. A result of -1 is 2 ^ 64 - 1 as a `size_t`.
unfoldable pub read_from_fd : Buffer → List ℕ → ReadResult → Outcome Buffer
read_from_fd b stack (read_failed errno) = finish_read b stack (2 ^ 64 - 1)
read_from_fd b stack (got bytes) =
    finish_read (scatter b bytes)
      (drop (writable_bytes b) bytes ++ drop (length bytes - writable_bytes b) stack) (length bytes)

-- `WriteToFd` on Linux; `write` is not called where there is nothing to write.
unfoldable pub write_to_fd : Buffer → WriteResult → Outcome Buffer
write_to_fd b (write_failed errno) = ok b
write_to_fd b (wrote n) =
    if readable_bytes b == 0 then ok b else if ltb 0 n then retrieve b n else ok b
