-- ===== src/VersionSet/VersionEdit/Fields/RoundTrip.antt =====
-- An edit is read back from its manifest record.
use pulsearc_db.Base.{
  ℕ, zero, suc, Bytes, [], ◌∷◌, ◌++◌, length, List, ◌<◌, ◌≤◌, ◌≡◌, refl, ap, sym, ◌∙◌, arith,
  append_assoc, append-nil, length-append, Option, none, some, map,
}
use pulsearc_db.Result.{ok}
use pulsearc_db.VersionSet.VersionEdit.{
  CompactPointer, DeletedFile, NewFile, VersionEdit, empty, encode_edit, decode_edit, decode_loop,
  decode_field,
}
use pulsearc_db.VersionSet.VersionEdit.Fields.{
  Field, comparator_field, log_field, prev_log_field, next_file_field, sequence_field,
  pointer_field, deleted_field, new_field, AreFields, apply, apply_all, tag_of, value_bytes,
  field_bytes, bytes_of, fields, option_field,
}
use pulsearc_db.VersionSet.VersionEdit.Fields.Codec.{decode_field_lem, field_bytes_starts}
use pulsearc_db.VersionSet.VersionEdit.Fields.Writing.{encode_edit-fields}

one_field :
    (rounds b : ℕ) (bs rest : Bytes) (edit edit' : VersionEdit)
    → decode_field (b ∷ bs) edit ≡ ok (edit', rest)
    → decode_loop (suc rounds) (b ∷ bs) edit ≡ decode_loop rounds rest edit'
unfolding decode_loop
one_field rounds b bs rest edit edit' e = rw (decode_loop, e)

field_long : (f : Field) (rest : Bytes) → length rest < length (field_bytes f ++ rest)
field_long f rest = rw (field_bytes_starts f) (omega (arith, length-append (value_bytes f) rest))

-- The loop applies the fields in their order.
decode_loop-bytes_of :
    (rounds : ℕ) (fs : List Field) (edit : VersionEdit)
    → length (bytes_of fs) ≤ rounds
    → AreFields fs
    → decode_loop rounds (bytes_of fs) edit ≡ ok (apply_all edit fs)
unfolding decode_loop bytes_of AreFields apply_all
decode_loop-bytes_of zero [] edit h k = refl
decode_loop-bytes_of (suc rounds) [] edit h k = refl
decode_loop-bytes_of zero (f ∷ fs) edit h k = absurd (omega (arith, field_long f (bytes_of fs)))
decode_loop-bytes_of (suc rounds) (f ∷ fs) edit h (k, ks) =
    let shape : field_bytes f ++ bytes_of fs ≡ tag_of f ∷ (value_bytes f ++ bytes_of fs) =
      ap (λ t. t ++ bytes_of fs) (field_bytes_starts f) in
    ap (λ t. decode_loop (suc rounds) t edit) shape
    ∙ one_field rounds (tag_of f) (value_bytes f ++ bytes_of fs) (bytes_of fs) edit (apply edit f)
        (ap (λ t. decode_field t edit) (sym shape) ∙ decode_field_lem f (bytes_of fs) edit k)
    ∙ decode_loop-bytes_of rounds fs (apply edit f) (omega (arith, field_long f (bytes_of fs))) ks

apply_all-append :
    (fs gs : List Field) (edit : VersionEdit)
    → apply_all edit (fs ++ gs) ≡ apply_all (apply_all edit fs) gs
unfolding apply_all
apply_all-append [] gs edit = refl
apply_all-append (f ∷ fs) gs edit = apply_all-append fs gs (apply edit f)

apply_pointers :
    (items : List CompactPointer) (edit : VersionEdit)
    → apply_all edit (map pointer_field items)
      ≡ record edit { compact_pointers = edit.compact_pointers ++ items }
unfolding apply_all apply
apply_pointers [] edit =
    ap (λ t. record edit { compact_pointers = t }) (sym (append-nil edit.compact_pointers))
apply_pointers (item ∷ items) edit =
    apply_pointers items (record edit { compact_pointers = edit.compact_pointers ++ item ∷ [] })
    ∙ ap (λ t. record edit { compact_pointers = t })
        (append_assoc edit.compact_pointers (item ∷ []) items)

apply_deleted :
    (items : List DeletedFile) (edit : VersionEdit)
    → apply_all edit (map deleted_field items)
      ≡ record edit { deleted_files = edit.deleted_files ++ items }
unfolding apply_all apply
apply_deleted [] edit =
    ap (λ t. record edit { deleted_files = t }) (sym (append-nil edit.deleted_files))
apply_deleted (item ∷ items) edit =
    apply_deleted items (record edit { deleted_files = edit.deleted_files ++ item ∷ [] })
    ∙ ap (λ t. record edit { deleted_files = t })
        (append_assoc edit.deleted_files (item ∷ []) items)

apply_new :
    (items : List NewFile) (edit : VersionEdit)
    → apply_all edit (map new_field items) ≡ record edit { new_files = edit.new_files ++ items }
unfolding apply_all apply
apply_new [] edit = ap (λ t. record edit { new_files = t }) (sym (append-nil edit.new_files))
apply_new (item ∷ items) edit =
    apply_new items (record edit { new_files = edit.new_files ++ item ∷ [] })
    ∙ ap (λ t. record edit { new_files = t }) (append_assoc edit.new_files (item ∷ []) items)

apply_name :
    (o : Option Bytes) (edit : VersionEdit)
    → apply_all (record edit { comparator = none }) (option_field comparator_field o)
      ≡ record edit { comparator = o }
unfolding apply_all apply option_field
apply_name none edit = refl
apply_name (some a) edit = refl

apply_log :
    (o : Option ℕ) (edit : VersionEdit)
    → apply_all (record edit { log_number = none }) (option_field log_field o)
      ≡ record edit { log_number = o }
unfolding apply_all apply option_field
apply_log none edit = refl
apply_log (some a) edit = refl

apply_prev_log :
    (o : Option ℕ) (edit : VersionEdit)
    → apply_all (record edit { prev_log_number = none }) (option_field prev_log_field o)
      ≡ record edit { prev_log_number = o }
unfolding apply_all apply option_field
apply_prev_log none edit = refl
apply_prev_log (some a) edit = refl

apply_next_file :
    (o : Option ℕ) (edit : VersionEdit)
    → apply_all (record edit { next_file_number = none }) (option_field next_file_field o)
      ≡ record edit { next_file_number = o }
unfolding apply_all apply option_field
apply_next_file none edit = refl
apply_next_file (some a) edit = refl

apply_sequence :
    (o : Option ℕ) (edit : VersionEdit)
    → apply_all (record edit { last_sequence = none }) (option_field sequence_field o)
      ≡ record edit { last_sequence = o }
unfolding apply_all apply option_field
apply_sequence none edit = refl
apply_sequence (some a) edit = refl

-- Applied to the empty edit, the fields of an edit give it back.
apply_all-fields : (edit : VersionEdit) → apply_all empty (fields edit) ≡ edit
unfolding fields apply_all
apply_all-fields edit =
    let e1 = record empty { comparator = edit.comparator } in
    let e2 = record e1 { log_number = edit.log_number } in
    let e3 = record e2 { prev_log_number = edit.prev_log_number } in
    let e4 = record e3 { next_file_number = edit.next_file_number } in
    let e5 = record e4 { last_sequence = edit.last_sequence } in
    let e6 = record e5 { compact_pointers = edit.compact_pointers } in
    let e7 = record e6 { deleted_files = edit.deleted_files } in
    simp (
      apply_all-append,
      apply_name edit.comparator empty,
      apply_log edit.log_number e1,
      apply_prev_log edit.prev_log_number e2,
      apply_next_file edit.next_file_number e3,
      apply_sequence edit.last_sequence e4,
      apply_pointers,
      apply_deleted,
      apply_new,
    )

-- An edit is decoded from its encoding, if its numbers are u64, its levels are levels of the tree, and
-- the lengths of its byte strings fit 32 bits.
pub decode_edit-encode_edit :
    (edit : VersionEdit) → AreFields (fields edit) → decode_edit (encode_edit edit []) ≡ ok edit
unfolding decode_edit
decode_edit-encode_edit edit h = rw (
  encode_edit-fields edit [],
  decode_loop-bytes_of (length (bytes_of (fields edit))) (fields edit) empty (omega arith) h,
  apply_all-fields edit,
)
