-- ===== src/Command/Check.antt =====
-- What a command that passes CheckCommand has.
use eventhorizon.Prelude.{◌≡◌, refl, ◌↔◌, true, false, arith, ℕ, String, String-discrete, ite, ◌==◌}
use eventhorizon.Event.{nil_uuid}
use eventhorizon.Command.{
  Value, Values, Members, pointer, reference, uuid, array, interface_value, text, time, structure,
  plain, zeroer, no_values, value, no_members, member, Command, CommandField, is_zero, all_zero,
  members_zero,
}

-- A value that holds nothing: the zero UUID, the empty text, the zero time, what is nil, an array
-- of such values, a structure whose public fields are such, and every pointer. Numbers and Booleans
-- always hold something; of a type within another, its own IsZero does not count.
mutual
  pub IsEmpty : Value → Type 0
  IsEmpty pointer = Unit
  IsEmpty (reference b) = b ≡ true
  IsEmpty (uuid id) = id ≡ nil_uuid
  IsEmpty (array vs) = AllEmpty vs
  IsEmpty (interface_value b) = b ≡ true
  IsEmpty (text s) = s ≡ ""
  IsEmpty (time b) = b ≡ true
  IsEmpty (structure ms) = MembersEmpty ms
  IsEmpty plain = ⊥
  IsEmpty (zeroer b v) = IsEmpty v

  pub AllEmpty : Values → Type 0
  AllEmpty no_values = Unit
  AllEmpty (value v vs) = IsEmpty v × AllEmpty vs

  pub MembersEmpty : Members → Type 0
  MembersEmpty no_members = Unit
  MembersEmpty (member private v ms) = (private ≡ false → IsEmpty v) × MembersEmpty ms

-- Of a field, the IsZero of its type decides, if there is one.
abbrev pub IsMissing : Value → Type 0
IsMissing (zeroer b v) = b ≡ true
IsMissing v = IsEmpty v

-- A field that has to be filled is.
abbrev pub IsFilled : CommandField → Type 0
IsFilled f = f.private ≡ false → f.optional ≡ false → ¬ IsMissing f.content

uuid_empty : (id : ℕ) → ((id == nil_uuid) ≡ true) ↔ (id ≡ nil_uuid)
uuid_empty id = (λ h. ground arith, λ h. ground arith)

text_empty : (s : String) → (ite (String-discrete s "") true false ≡ true) ↔ (s ≡ "")
text_empty s = (λ h. ground arith, λ h. ground arith)

-- The code takes for zero what is empty.
mutual
  unfolding is_zero IsEmpty

  is_zero-IsEmpty : (v : Value) → (is_zero v ≡ true) ↔ IsEmpty v
  is_zero-IsEmpty pointer = (λ h. tt, λ h. refl)
  is_zero-IsEmpty (reference b) = (λ h. h, λ h. h)
  is_zero-IsEmpty (uuid id) = uuid_empty id
  is_zero-IsEmpty (array vs) = all_zero-AllEmpty vs
  is_zero-IsEmpty (interface_value b) = (λ h. h, λ h. h)
  is_zero-IsEmpty (text s) = text_empty s
  is_zero-IsEmpty (time b) = (λ h. h, λ h. h)
  is_zero-IsEmpty (structure ms) = members_zero-MembersEmpty ms
  is_zero-IsEmpty plain = (λ h. absurd cc, λ h. absurd h)
  is_zero-IsEmpty (zeroer b v) = is_zero-IsEmpty v

  all_zero-AllEmpty : (vs : Values) → (all_zero vs ≡ true) ↔ AllEmpty vs
  all_zero-AllEmpty no_values = (λ h. tt, λ h. refl)
  all_zero-AllEmpty (value v vs) =
      let (to, from) = is_zero-IsEmpty v in
      let (all, any) = all_zero-AllEmpty vs in
      (λ h. (to (ground arith), all (ground arith)), λ (e, es). rw (from e, any es) refl)

  members_zero-MembersEmpty : (ms : Members) → (members_zero ms ≡ true) ↔ MembersEmpty ms
  members_zero-MembersEmpty no_members = (λ h. tt, λ h. refl)
  members_zero-MembersEmpty (member true v ms) =
      let (all, any) = members_zero-MembersEmpty ms in
      (λ h. (λ p. absurd cc, all h), λ (e, es). any es)
  members_zero-MembersEmpty (member false v ms) =
      let (to, from) = is_zero-IsEmpty v in
      let (all, any) = members_zero-MembersEmpty ms in
      (
        λ h. (λ p. to (ground arith), all (ground arith)),
        λ (e, es). rw (from (e refl), any es) refl,
      )
