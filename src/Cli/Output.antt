-- ===== src/Cli/Output.antt =====
-- cli/src/output.rs: the formats of values. A report is the table that `render` prints; printing it,
-- and the JSON of `--json`, are serde's and the terminal's.
use kolz_protocol.Base.{ℕ, Bool, true, false, List, ◌++◌}
use kolz_protocol.Bytes.{Bytes}
use kolz_protocol.Constants.{ascii}
use kolz_protocol.Cli.Text.{Text, hex_bytes, show_number}

pub data OutputFormat : Type 0 where
  table json : OutputFormat

unfoldable pub from_flag : Bool → OutputFormat
from_flag true = json
from_flag false = table

-- The title and the rows that a command hands to `render`.
pub record Report : Type 0 where
  pub title : Text
  pub rows : List (Text × Text)

unfoldable pub fmt_hex32 : Bytes → Text
unfolding hex_bytes
fmt_hex32 bytes = hex_bytes bytes

unfoldable pub fmt_slot : ℕ → Text
unfolding show_number
fmt_slot slot = show_number slot

-- The amount in SOL is a float's, formatted by the standard library: a parameter.
unfoldable pub fmt_lamports : (ℕ → Text) → ℕ → Text
unfolding show_number
fmt_lamports fmt_sol lamports =
    show_number lamports ++ (ascii " lamports (" ++ (fmt_sol lamports ++ ascii " SOL)"))
