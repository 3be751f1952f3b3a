-- ===== src/Command.antt =====
-- command.go and command_check.go: commands, and the check of their fields. What package reflect
-- tells of a field's value is a tree.
pub mod Check
mod Tests
use eventhorizon.Prelude.{
  ℕ, String, String-discrete, ℕ_discrete, Bool, true, false, not, ◌&&◌, Option, none, some, List,
  [], ◌∷◌, ite, if◌then◌else◌, ◌==◌,
}
use eventhorizon.Errors.{
  Err, Result, ok, err, sentinel, missing_field, missing_command, missing_aggregate_id,
}
use eventhorizon.Event.{nil_uuid}

mutual
  pub data Value : Type 0 where
    pointer : Value  -- Func, Chan, Ptr and UnsafePointer
    reference : Bool → Value  -- Map and Slice: is it nil
    uuid : ℕ → Value
    array : Values → Value
    interface_value : Bool → Value  -- is it nil
    text : String → Value
    time : Bool → Value  -- is it the zero time
    structure : Members → Value
    plain : Value  -- Bool and all numbers
    zeroer : Bool → Value → Value  -- a type with its own IsZero, and what that returns

  pub data Values : Type 0 where
    no_values : Values
    value : Value → Values → Values

  -- The fields of a struct, each private or not.
  pub data Members : Type 0 where
    no_members : Members
    member : Bool → Value → Members → Members

mutual
  pub is_zero : Value → Bool
  is_zero pointer = true
  is_zero (reference b) = b
  is_zero (uuid id) = id == nil_uuid
  is_zero (array vs) = all_zero vs
  is_zero (interface_value b) = b
  is_zero (text s) = ite (String-discrete s "") true false
  is_zero (time b) = b
  is_zero (structure ms) = members_zero ms
  is_zero plain = false
  is_zero (zeroer b v) = is_zero v

  pub all_zero : Values → Bool
  all_zero no_values = true
  all_zero (value v vs) = let rest = all_zero vs in if not (is_zero v) then false else rest

  pub members_zero : Members → Bool
  members_zero no_members = true
  members_zero (member private v ms) =
      let rest = members_zero ms in if private then rest else is_zero v && rest

pub record CommandField : Type 0 where
  pub name : String
  pub private : Bool
  pub optional : Bool  -- the tag `eh:"optional"`
  pub content : Value

pub record Command : Type 0 where
  pub aggregate_id : ℕ
  pub aggregate_type : String
  pub command_type : String
  pub fields : List CommandField
  pub validate : Option (Option Err)  -- the method Validate, if there is one, and its error

-- A type with its own IsZero decides for itself; time.Time has one.
pub field_zero : Value → Bool
unfolding is_zero
field_zero (zeroer b v) = b
field_zero v = is_zero v

pub check_fields : List CommandField → Result (Unit {0})
unfolding field_zero
check_fields [] = ok tt
check_fields (f ∷ fs) =
    let rest = check_fields fs in
    if f.private
    then rest
    else if f.optional
    then rest
    else if field_zero f.content
    then err (missing_field f.name)
    else rest

unfoldable pub check_command : Option Command → Result (Unit {0})
unfolding check_fields
check_command none = err (sentinel missing_command)
check_command (some cmd) =
    ite (ℕ_discrete cmd.aggregate_id nil_uuid) (err (sentinel missing_aggregate_id))
      (check_fields cmd.fields)
