-- ===== src/Context.antt =====
-- context.go, and the values of namespace/context.go and repo/version/context.go: how the values of a
-- context travel as a map of texts. A context is the values under its keys; package uuid's String and
-- Parse are parameters.
pub mod Copying
mod Tests
use eventhorizon.Prelude.{
  ℕ, String, String-discrete, ◌≡◌, Bool, true, false, Option, none, some, List, [], ◌∷◌, ◌++◌, ite,
}
use eventhorizon.Errors.{Result, ok, err, panic, ◌>>=◌}

pub record Context : Type 0 where
  pub aggregate_id : Option ℕ
  pub aggregate_type : Option String
  pub command_type : Option String
  pub namespace : Option String

pub record Uuid : Type 0 where
  pub print : ℕ → String
  pub parse : String → Option ℕ

-- The ID, if there is one, is parsed back from its text.
abbrev pub PrintsUuid : Uuid → Option ℕ → Type 0
PrintsUuid u none = Unit
PrintsUuid u (some id) = u.parse (u.print id) ≡ some id

abbrev pub background : Context
background = record {
  aggregate_id = none;
  aggregate_type = none;
  command_type = none;
  namespace = none;
}

unfoldable pub with_aggregate_id : Context → ℕ → Context
with_aggregate_id ctx id = record ctx { aggregate_id = some id }

unfoldable pub with_aggregate_type : Context → String → Context
with_aggregate_type ctx t = record ctx { aggregate_type = some t }

unfoldable pub with_command_type : Context → String → Context
with_command_type ctx t = record ctx { command_type = some t }

-- namespace.NewContext and namespace.FromContext
unfoldable pub with_namespace : Context → String → Context
with_namespace ctx ns = record ctx { namespace = some ns }

unfoldable pub from_context : Context → String
from_context ctx = elim ctx.namespace [ some ns ↦ ns | none ↦ "default" ]

-- A map of texts, by its entries; keys differ.
abbrev pub Vals : Type 0
Vals = List (String × String)

unfoldable pub get : Vals → String → Option String
get [] key = none
get ((k, v) ∷ vals) key = let rest = get vals key in ite (String-discrete k key) (some v) rest

unfoldable pub entry : String → Option String → Vals
entry key none = []
entry key (some v) = (key, v) ∷ []

abbrev pub ContextMarshalFunc : Type 0
ContextMarshalFunc = Context → Vals

abbrev pub ContextUnmarshalFunc : Type 0
ContextUnmarshalFunc = Context → Vals → Context

-- RegisterContextMarshaler and RegisterContextUnmarshaler, on the list of functions.
unfoldable pub register_context_marshaler :
    ContextMarshalFunc → List ContextMarshalFunc → List ContextMarshalFunc
register_context_marshaler f fs = fs ++ f ∷ []

unfoldable pub register_context_unmarshaler :
    ContextUnmarshalFunc → List ContextUnmarshalFunc → List ContextUnmarshalFunc
register_context_unmarshaler f fs = fs ++ f ∷ []

-- The inner loop of MarshalContext: an entry that is there is a panic.
add_vals : Vals → Vals → Result Vals
unfolding get
add_vals [] all = ok all
add_vals ((k, v) ∷ vals) all = elim (get all k) [
  | some _ ↦ panic
  | none ↦ add_vals vals (all ++ (k, v) ∷ [])
]

marshal_rest : List ContextMarshalFunc → Context → Vals → Result Vals
unfolding add_vals
marshal_rest [] ctx all = ok all
marshal_rest (f ∷ fs) ctx all = add_vals (f ctx) all >>= marshal_rest fs ctx

unfoldable pub marshal_context : List ContextMarshalFunc → Context → Result Vals
unfolding marshal_rest
marshal_context fs ctx = marshal_rest fs ctx []

unmarshal_rest : List ContextUnmarshalFunc → Context → Vals → Context
unmarshal_rest [] ctx vals = ctx
unmarshal_rest (f ∷ fs) ctx vals = unmarshal_rest fs (f ctx vals) vals

-- A nil map is `none`.
unfoldable pub unmarshal_context : List ContextUnmarshalFunc → Context → Option Vals → Context
unfolding unmarshal_rest
unmarshal_context fs ctx none = ctx
unmarshal_context fs ctx (some vals) = unmarshal_rest fs ctx vals

unfoldable pub copy_context :
    List ContextMarshalFunc → List ContextUnmarshalFunc → Context → Context → Result Context
unfolding marshal_context unmarshal_context
copy_context ms us from to =
    marshal_context ms from >>= λ vals. ok (unmarshal_context us to (some vals))

-- The functions that context.go registers.
module _ (u : Uuid) where
  id_entry : Option ℕ → Vals
  id_entry none = []
  id_entry (some id) = ("eh_aggregate_id", u.print id) ∷ []

  unfoldable pub core_marshaler : ContextMarshalFunc
  unfolding id_entry entry
  core_marshaler ctx =
      id_entry ctx.aggregate_id
      ++ entry "eh_aggregate_type" ctx.aggregate_type
      ++ entry "eh_command_type" ctx.command_type

  read_id : Option String → Context → Context
  unfolding with_aggregate_id
  read_id none ctx = ctx
  read_id (some text) ctx = elim (u.parse text) [ none ↦ ctx | some id ↦ with_aggregate_id ctx id ]

  read_type : Option String → Context → Context
  unfolding with_aggregate_type
  read_type none ctx = ctx
  read_type (some t) ctx = with_aggregate_type ctx t

  read_command : Option String → Context → Context
  unfolding with_command_type
  read_command none ctx = ctx
  read_command (some t) ctx = with_command_type ctx t

  unfoldable pub core_unmarshaler : ContextUnmarshalFunc
  unfolding get read_id read_type read_command
  core_unmarshaler ctx vals =
      read_command (get vals "eh_command_type")
        (read_type (get vals "eh_aggregate_type") (read_id (get vals "eh_aggregate_id") ctx))

-- The functions that namespace/context.go registers.
unfoldable pub namespace_marshaler : ContextMarshalFunc
unfolding entry
namespace_marshaler ctx = entry "eh_namespace" ctx.namespace

read_namespace : Option String → Context → Context
unfolding with_namespace
read_namespace none ctx = ctx
read_namespace (some ns) ctx = with_namespace ctx ns

unfoldable pub namespace_unmarshaler : ContextUnmarshalFunc
unfolding get read_namespace
namespace_unmarshaler ctx vals = read_namespace (get vals "eh_namespace") ctx

-- What a program that uses both packages has registered.
unfoldable pub marshalers : Uuid → List ContextMarshalFunc
unfolding core_marshaler namespace_marshaler register_context_marshaler
marshalers u =
    register_context_marshaler namespace_marshaler
      (register_context_marshaler (core_marshaler u) [])

unfoldable pub unmarshalers : Uuid → List ContextUnmarshalFunc
unfolding core_unmarshaler namespace_unmarshaler register_context_unmarshaler
unmarshalers u =
    register_context_unmarshaler namespace_unmarshaler
      (register_context_unmarshaler (core_unmarshaler u) [])
