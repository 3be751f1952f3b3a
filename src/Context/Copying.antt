-- ===== src/Context/Copying.antt =====
-- context.go: what a context carries survives a trip through the map of texts.
use eventhorizon.Prelude.{ℕ, String, String-discrete, ◌≡◌, Option, none, some, arith}
use eventhorizon.Errors.{ok}
use eventhorizon.Context.{Context, Uuid, PrintsUuid, copy_context, marshalers, unmarshalers}

-- The values of the second context, where the first has none.
unfoldable pub over : {A : Type 0} → Option A → Option A → Option A
over none own = own
over (some v) own = some v

abbrev context : Option ℕ → Option String → Option String → Option String → Context
context id t c ns = record {
  aggregate_id = id;
  aggregate_type = t;
  command_type = c;
  namespace = ns;
}

copied :
    (u : Uuid) (id : Option ℕ) (t c ns : Option String) (to : Context)
    → PrintsUuid u id
    → copy_context (marshalers u) (unmarshalers u) (context id t c ns) to
      ≡ ok (
          context
            (over id to.aggregate_id)
            (over t to.aggregate_type)
            (over c to.command_type)
            (over ns to.namespace))
unfolding copy_context marshalers unmarshalers over String-discrete
copied u none t c ns to trip = ground arith
copied u (some id) t c ns to trip = ground (arith, trip)

-- If the ID is read back as printed, the copy has the values of the first context, and the others of
-- the second; no entry is set twice.
pub copy_context_lem :
    (u : Uuid) (from to : Context)
    → PrintsUuid u from.aggregate_id
    → copy_context (marshalers u) (unmarshalers u) from to
      ≡ ok (record {
        aggregate_id = over from.aggregate_id to.aggregate_id;
        aggregate_type = over from.aggregate_type to.aggregate_type;
        command_type = over from.command_type to.command_type;
        namespace = over from.namespace to.namespace;
      })
copy_context_lem u from to trip =
    copied u from.aggregate_id from.aggregate_type from.command_type from.namespace to trip
