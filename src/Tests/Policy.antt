-- ===== src/Tests/Policy.antt =====
-- An editor who may read everything but the ledger.
use blitz_db.Prelude.{true, false, ◌∷◌, [], not, ◌&&◌, any, ◌≡◌, refl}
use blitz_db.Policy.{
  read, Identity, allow, deny, PolicyRule, check, scan_rules, verdict, has_role, same_permission,
  matches,
}
use blitz_db.Policy.Deny.{denies, allows, check_lem}

abbrev editor : Identity
editor = record { id = 1; subject = "eve"; roles = "editor" ∷ []; permissions = []; claims = [] }

abbrev everything : PolicyRule
everything = record { roles = "editor" ∷ []; resource = "*"; permission = read; effect = allow }

abbrev ledger : PolicyRule
ledger = record { roles = "editor" ∷ []; resource = "ledger"; permission = read; effect = deny }

reads_users : check (everything ∷ ledger ∷ []) editor "users" read ≡ true
unfolding check scan_rules verdict has_role same_permission matches
reads_users = refl

ledger_closed : check (everything ∷ ledger ∷ []) editor "ledger" read ≡ false
unfolding check scan_rules verdict has_role same_permission matches
ledger_closed = refl

check_lem_example : check (everything ∷ ledger ∷ []) editor "ledger" read ≡ (
    not (any (denies editor "ledger" read) (everything ∷ ledger ∷ []))
    && any (allows editor "ledger" read) (everything ∷ ledger ∷ []))
check_lem_example = check_lem (everything ∷ ledger ∷ []) editor "ledger" read
