-- ===== src/Context/Tests.antt =====
-- context.go on one context, with the text of one ID.
use eventhorizon.Prelude.{String-discrete, ◌≡◌, refl, none, some, [], ◌∷◌}
use eventhorizon.Errors.{ok, panic}
use eventhorizon.Context.{
  Context, Uuid, background, from_context, namespace_marshaler, marshal_context, marshalers,
  unmarshalers, copy_context,
}
use eventhorizon.Context.Copying.{copy_context_lem, over}

abbrev seven : Uuid
seven = record { print = λ id. "seven"; parse = λ text. some 7 }

abbrev sender : Context
sender = record {
  aggregate_id = some 7;
  aggregate_type = none;
  command_type = some "open";
  namespace = none;
}

abbrev receiver : Context
receiver = record {
  aggregate_id = none;
  aggregate_type = none;
  command_type = some "close";
  namespace = some "tenant";
}

-- A package that registers its marshaler twice breaks every MarshalContext of its values.
registered_twice : marshal_context (namespace_marshaler ∷ namespace_marshaler ∷ []) receiver ≡ panic
unfolding marshal_context namespace_marshaler String-discrete
registered_twice = refl

no_namespace : from_context background ≡ "default"
unfolding from_context
no_namespace = refl

copy_context_lem_example :
    copy_context (marshalers seven) (unmarshalers seven) sender receiver
    ≡ ok (record {
      aggregate_id = some 7;
      aggregate_type = none;
      command_type = some "open";
      namespace = some "tenant";
    })
unfolding over
copy_context_lem_example = copy_context_lem seven sender receiver refl
