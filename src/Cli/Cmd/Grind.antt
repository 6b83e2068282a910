-- ===== src/Cli/Cmd/Grind.antt =====
-- cli/src/cmd/grind.rs. The threads of `run` take their steps in any order: `Step` has one step for
-- each access that a thread makes to what they share. The key pair of a round is any; a thread that
-- reads `found` may see an old value, since the loads are relaxed. The clock's text is a parameter.
pub mod Safety
use kolz_protocol.Base.{
  ℕ, suc, ◌+◌, ◌-◌, ◌%◌, ◌^◌, ◌<◌, ◌≡◌, Bool, true, false, not, Option, none, some, List, [], ◌∷◌,
  ◌++◌, map, ltb, leb, ◌==◌, ◌||◌, if◌then◌else◌, length, drop,
}
use kolz_protocol.Bytes.{Bytes, bytes_eq}
use kolz_protocol.Constants.{ascii}
use kolz_protocol.Cli.Text.{Text, show_number, lower, is_continuation}
use kolz_protocol.Cli.Error.{
  CliResult, done, fail, reject_if, or_fail, ◌>>=◌, ◌>>◌, invalid_arg, internal, io, json,
}
use kolz_protocol.Cli.Output.{Report}
use kolz_protocol.Cli.Host.{Host, Keypair}
use kolz_protocol.Cli.Rpc.{or_error}

abbrev pub pump_suffix : Text
pump_suffix = ascii "pump"

pub record Args : Type 0 where
  pub output : Text
  pub threads : ℕ
  pub suffix : Text

abbrev pub alphabet : Text
alphabet = ascii "123456789ABCDEFGHJKLMNPQRSTUVWXYZabcdefghijkmnopqrstuvwxyz"

unfoldable pub member : ℕ → Text → Bool
member c [] = false
member c (x ∷ xs) = if x == c then true else member c xs

abbrev pub continuation : Text → Text
continuation [] = []
continuation (b ∷ rest) = let more = b ∷ continuation rest in if is_continuation b then more else []

-- The loop over the characters; one that is no ASCII character starts with a byte over 127, which
-- the alphabet has not.
unfoldable pub check_chars : Text → CliResult (Unit {0})
unfolding member
check_chars [] = done tt
check_chars (c ∷ rest) = do
  reject_if (not (member c alphabet)) (
      invalid_arg (ascii "suffix") (
        ascii "character '"
        ++ ((c ∷ continuation rest) ++ ascii "' is not in the base58 alphabet")))
  check_chars rest

unfoldable pub validate_suffix : Text → CliResult (Unit {0})
unfolding check_chars
validate_suffix value = do
  reject_if (length value == 0) (invalid_arg (ascii "suffix") (ascii "suffix must not be empty"))
  reject_if (ltb 8 (length value))
      (invalid_arg (ascii "suffix") (ascii "suffix longer than 8 chars is infeasible to grind"))
  check_chars value

-- `s.to_lowercase().ends_with(&needle)`, both ASCII.
unfoldable pub ends_with : Text → Text → Bool
ends_with s needle =
    if ltb (length s) (length needle)
    then false
    else bytes_eq (drop (length s - length needle) s) needle

unfoldable pub matches : Host → Text → Keypair → Bool
unfolding ends_with lower
matches host suffix kp = ends_with (map lower (host.show_pubkey kp.pubkey)) (map lower suffix)

-- What the threads share, and where each of them is: before its test of `found`, before the count of
-- a round, before the lock with a key pair that fits, inside the lock, or out of the loop.
pub record Shared : Type 0 where
  pub found : Bool
  pub counter : ℕ
  pub winner : Option Keypair
  pub locked : Bool

pub data Pc : Type 0 where
  testing drawing storing stopped : Pc
  locking : Keypair → Pc

pub record System : Type 0 where
  pub shared : Shared
  pub pc : ℕ → Pc

abbrev pub update : (ℕ → Pc) → ℕ → Pc → ℕ → Pc
update pc i p j = if i == j then p else pc j

abbrev pub start : System
start = record {
  shared = record { found = false; counter = 0; winner = none; locked = false };
  pc = λ _. testing;
}

-- One access of one thread: what is shared and where the thread is, before and after.
pub data Move (fits : Keypair → Bool) (s : Shared) : Pc → Shared → Pc → Type 0 where
  goes_on : Move fits s testing s drawing
  leaves : s.found ≡ true → Move fits s testing s stopped
  misses :
      (kp : Keypair)
      → fits kp ≡ false
      → Move fits s drawing (record s { counter = (s.counter + 1) % 2 ^ 64 }) testing
  hits :
      (kp : Keypair)
      → fits kp ≡ true
      → Move fits s drawing (record s { counter = (s.counter + 1) % 2 ^ 64 }) (locking kp)
  takes_slot :
      (kp : Keypair)
      → s.locked ≡ false
      → s.winner ≡ none
      → Move fits s (locking kp) (record s { winner = some kp; locked = true }) storing
  too_late :
      (kp old : Keypair)
      → s.locked ≡ false
      → s.winner ≡ some old
      → Move fits s (locking kp) s stopped
  stores_found : Move fits s storing (record s { found = true; locked = false }) stopped

pub data Step (fits : Keypair → Bool) (n : ℕ) (s : System) : System → Type 0 where
  pick :
      (i : ℕ) {m : Shared} {p : Pc}
      → i < n
      → Move fits s.shared (s.pc i) m p
      → Step fits n s (record { shared = m; pc = update s.pc i p })

pub data Reach (fits : Keypair → Bool) (n : ℕ) : System → Type 0 where
  begin : Reach fits n start
  then_ : {s t : System} → Reach fits n s → Step fits n s t → Reach fits n t

-- All threads are joined.
abbrev pub AllStopped : ℕ → System → Type 0
AllStopped n s = (i : ℕ) → i < n → s.pc i ≡ stopped

module _ (host : Host) (args : Args) where
  -- The checks before the threads start.
  unfoldable pub check_args : CliResult (Unit {0})
  unfolding validate_suffix
  check_args = do
    validate_suffix args.suffix
    reject_if (args.threads == 0)
        (invalid_arg (ascii "threads") (ascii "threads must be at least 1"))
    done tt

  -- The rest of `run` once the threads are joined.
  unfoldable pub finish : Text → Shared → CliResult Report
  finish elapsed shared = do
    kp ← or_fail shared.winner (internal (ascii "grinder exited without a result"))
    text ← or_error (host.bytes_to_json kp.bytes) json
    or_error (host.write_file args.output text) io
    done (record {
      title = ascii "cols grind";
      rows =
          (ascii "pubkey", host.show_pubkey kp.pubkey)
          ∷ (ascii "suffix", args.suffix)
          ∷ (ascii "threads", show_number args.threads)
          ∷ (ascii "attempts", show_number shared.counter)
          ∷ (ascii "elapsed_seconds", elapsed)
          ∷ (ascii "output_path", args.output)
          ∷ [];
    })

  unfoldable pub run : Text → Shared → CliResult Report
  unfolding check_args finish
  run elapsed shared = do check_args; finish elapsed shared
