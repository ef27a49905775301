-- ===== src/WriteBatch/Records.antt =====
-- A batch that holds a list of records, and the reading of it.
use pulsearc_db.Base.{
  ℕ, zero, suc, ◌+◌, ◌%◌, ◌^◌, ◌≤◌, ◌<◌, Bytes, [], ◌∷◌, ◌++◌, length, ◌≡◌, refl, ap, sym, ◌∙◌,
  arith, append_assoc, length-append, List,
}
use pulsearc_db.Result.{ok}
use pulsearc_db.Coding.{put_length_prefixed_slice, get_u8}
use pulsearc_db.Coding.Prefixed.{put_length_prefixed_slice-append, get_length_prefixed_slice-put}
use pulsearc_db.WriteBatch.{
  WriteBatchRecord, delete_record, put_record, Handler, encode_record, decode_record, visit,
  iterate_loop, decode_tagged, visit_tagged,
}

-- Every length fits its u32 prefix.
unfoldable pub IsRecord : WriteBatchRecord → Type 0
IsRecord (delete_record key) = length key < 2 ^ 32
IsRecord (put_record key value) = (length key < 2 ^ 32) × (length value < 2 ^ 32)

unfoldable pub AreRecords : List WriteBatchRecord → Type 0
AreRecords [] = Unit
AreRecords (r ∷ rs) = IsRecord r × AreRecords rs

unfoldable pub encoded : List WriteBatchRecord → Bytes
encoded [] = []
encoded (r ∷ rs) = encode_record r [] ++ encoded rs

pub encoded-append : (rs ss : List WriteBatchRecord) → encoded (rs ++ ss) ≡ encoded rs ++ encoded ss
unfolding encoded
encoded-append [] ss = refl
encoded-append (r ∷ rs) ss =
    rw (encoded-append rs ss, append_assoc (encode_record r []) (encoded rs) (encoded ss))

pub encode_record-append :
    (r : WriteBatchRecord) (dst : Bytes) → encode_record r dst ≡ dst ++ encode_record r []
unfolding encode_record
encode_record-append (delete_record key) dst = rw (
  put_length_prefixed_slice-append (dst ++ 0 ∷ []) key,
  put_length_prefixed_slice-append (0 ∷ []) key,
  append_assoc,
)
encode_record-append (put_record key value) dst = rw (
  put_length_prefixed_slice-append (put_length_prefixed_slice (dst ++ 1 ∷ []) key) value,
  put_length_prefixed_slice-append (dst ++ 1 ∷ []) key,
  put_length_prefixed_slice-append (put_length_prefixed_slice (1 ∷ []) key) value,
  put_length_prefixed_slice-append (1 ∷ []) key,
  append_assoc (dst ++ 1 ∷ []) (put_length_prefixed_slice [] key)
      (put_length_prefixed_slice [] value),
  append_assoc dst (1 ∷ [])
      (put_length_prefixed_slice [] key ++ put_length_prefixed_slice [] value),
)

-- The shape of a record's bytes: its tag, then its prefixed byte strings.
delete_bytes :
    (key : Bytes) → encode_record (delete_record key) [] ≡ 0 ∷ put_length_prefixed_slice [] key
unfolding encode_record
delete_bytes key = put_length_prefixed_slice-append (0 ∷ []) key

put_bytes :
    (key value : Bytes)
    → encode_record (put_record key value) []
      ≡ 1 ∷ (put_length_prefixed_slice [] key ++ put_length_prefixed_slice [] value)
unfolding encode_record
put_bytes key value = rw (
  put_length_prefixed_slice-append (put_length_prefixed_slice (1 ∷ []) key) value,
  put_length_prefixed_slice-append (1 ∷ []) key,
)

-- A record whose lengths fit 32 bits is decoded from its encoding, and what follows is left.
pub decode_record-encode_record :
    (r : WriteBatchRecord) (rest : Bytes)
    → IsRecord r
    → decode_record (encode_record r [] ++ rest) ≡ ok (r, rest)
unfolding decode_record decode_tagged get_u8 IsRecord
decode_record-encode_record (delete_record key) rest h =
    rw (delete_bytes key, get_length_prefixed_slice-put key rest h)
decode_record-encode_record (put_record key value) rest (hk, hv) = rw (
  put_bytes key value,
  append_assoc (put_length_prefixed_slice [] key) (put_length_prefixed_slice [] value) rest,
  get_length_prefixed_slice-put key (put_length_prefixed_slice [] value ++ rest) hk,
  get_length_prefixed_slice-put value rest hv,
)

module _ {ℓ} {S : Type ℓ} (h : Handler S) where
  -- What a handler does with one record, and with all in their order.
  unfoldable pub handle : S → WriteBatchRecord → S
  handle s (delete_record key) = h.delete s key
  handle s (put_record key value) = h.put s key value

  unfoldable pub handle_all : S → List WriteBatchRecord → S
  handle_all s [] = s
  handle_all s (r ∷ rs) = handle_all (handle s r) rs

  visit-encode_record :
      (r : WriteBatchRecord) (rest : Bytes) (s : S)
      → IsRecord r
      → visit h (encode_record r [] ++ rest) s ≡ ok (rest, handle s r)
  unfolding visit visit_tagged get_u8 IsRecord handle
  visit-encode_record (delete_record key) rest s k =
      rw (delete_bytes key, get_length_prefixed_slice-put key rest k)
  visit-encode_record (put_record key value) rest s (hk, hv) = rw (
    put_bytes key value,
    append_assoc (put_length_prefixed_slice [] key) (put_length_prefixed_slice [] value) rest,
    get_length_prefixed_slice-put key (put_length_prefixed_slice [] value ++ rest) hk,
    get_length_prefixed_slice-put value rest hv,
  )

  -- A record has its tag at least.
  encode_record_starts :
      (r : WriteBatchRecord) → (b : ℕ) × (bs : Bytes) × (encode_record r [] ≡ b ∷ bs)
  encode_record_starts (delete_record key) = (0, put_length_prefixed_slice [] key, delete_bytes key)
  encode_record_starts (put_record key value) = (
    1,
    put_length_prefixed_slice [] key ++ put_length_prefixed_slice [] value,
    put_bytes key value,
  )

  one_visit :
      (rounds b n : ℕ) (bs rest : Bytes) (s s' : S)
      → visit h (b ∷ bs) s ≡ ok (rest, s')
      → iterate_loop (suc rounds) h (b ∷ bs) s n ≡ iterate_loop rounds h rest s' ((n + 1) % 2 ^ 32)
  unfolding iterate_loop
  one_visit rounds b n bs rest s s' e = rw (iterate_loop, e)

  -- One round of the loop over a record's bytes.
  iterate_record :
      (rounds : ℕ) (r : WriteBatchRecord) (rest : Bytes) (s : S) (n : ℕ)
      → IsRecord r
      → iterate_loop (suc rounds) h (encode_record r [] ++ rest) s n
        ≡ iterate_loop rounds h rest (handle s r) ((n + 1) % 2 ^ 32)
  iterate_record rounds r rest s n k =
      let (b, bs, e) = encode_record_starts r in
      let shape : encode_record r [] ++ rest ≡ b ∷ (bs ++ rest) = ap (λ t. t ++ rest) e in
      ap (λ t. iterate_loop (suc rounds) h t s n) shape
      ∙ one_visit rounds b n (bs ++ rest) rest s (handle s r)
          (ap (λ t. visit h t s) (sym shape) ∙ visit-encode_record r rest s k)

  encode_record_long :
      (r : WriteBatchRecord) (rest : Bytes) → length rest < length (encode_record r [] ++ rest)
  encode_record_long r rest =
      let (b, bs, e) = encode_record_starts r in rw e (omega (arith, length-append bs rest))

  -- All the records are handled in their order, and counted.
  pub iterate_loop-encoded :
      (rounds : ℕ) (rs : List WriteBatchRecord) (s : S) (n : ℕ)
      → length (encoded rs) ≤ rounds
      → AreRecords rs
      → n < 2 ^ 32
      → iterate_loop rounds h (encoded rs) s n ≡ (ok ((n + length rs) % 2 ^ 32), handle_all s rs)
  unfolding iterate_loop encoded AreRecords handle_all
  iterate_loop-encoded zero [] s n hl hr hn = ap (λ (k : ℕ). (ok k, s)) (omega arith)
  iterate_loop-encoded (suc rounds) [] s n hl hr hn = ap (λ (k : ℕ). (ok k, s)) (omega arith)
  iterate_loop-encoded zero (r ∷ rs) s n hl hr hn =
      absurd (omega (arith, encode_record_long r (encoded rs)))
  iterate_loop-encoded (suc rounds) (r ∷ rs) s n hl (k, ks) hn =
      iterate_record rounds r (encoded rs) s n k
      ∙ iterate_loop-encoded rounds rs (handle s r) ((n + 1) % 2 ^ 32)
          (omega (arith, encode_record_long r (encoded rs))) ks (omega arith)
      ∙ ap (λ (m : ℕ). (ok m, handle_all (handle s r) rs)) (omega arith)
