-- ===== src/Command/Tests.antt =====
-- A command with a text to fill and an optional number.
use eventhorizon.Prelude.{true, false, none, [], ◌∷◌}
use eventhorizon.Command.{Command, text, uuid}

abbrev rename : Command
rename = record {
  aggregate_id = 7;
  aggregate_type = "account";
  command_type = "rename";
  fields =
      record { name = "Name"; private = false; optional = false; content = text "savings" }
      ∷ record { name = "Owner"; private = false; optional = true; content = uuid 0 }
      ∷ [];
  validate = none;
}
