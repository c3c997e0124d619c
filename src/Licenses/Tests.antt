-- ===== src/Licenses/Tests.antt =====
-- A run of the license operations: an activation, then its removal.
use reeva.Prelude.{ℕ, ◌≡◌, refl, none, [], ◌∷◌, lit, ok, trim, trim_start, is_space, same}
use reeva.Input.{text}
use reeva.Licenses.{
  nat, License, Licensing, find_license, save, activations_of, Token, Signer, get_private_key,
  issue, remove_activation,
}
use reeva.Licenses.Invariant.{IsConsistent}
use reeva.Licenses.Seats.{IsSeated, issue-IsSeated}
use reeva.Licenses.Steps.{here, next, issued, removed, Reach-IsConsistent}

abbrev license_of : ℕ → License
license_of n = record {
  id = 7;
  license_key = lit "K";
  product_name = lit "App";
  status = lit "active";
  max_activations = nat 1;
  activation_count = n;
  expires_at = none;
  revoked_at = none;
  deleted_at = none;
}

abbrev start : Licensing
start = record {
  licenses = license_of 0 ∷ [];
  activations = [];
  settings = record { key = lit "license_private_key"; value = lit "p" } ∷ [];
}

abbrev active : Licensing
active = record {
  licenses = license_of 1 ∷ [];
  activations = record { id = 9; license_id = 7; machine_id = lit "pc" } ∷ [];
  settings = record { key = lit "license_private_key"; value = lit "p" } ∷ [];
}

abbrev signer : Signer
signer = record { fresh = (lit "p", lit "q"); sign = λ key p. key }

abbrev token : Token
token = record {
  payload = record {
    lid = 7;
    key = lit "K";
    hid = lit "pc";
    prod = lit "App";
    exp = none;
    iat = 100;
  };
  signature = lit "p";
}

issue_run : issue signer start 7 (text (lit " pc")) 9 100 ≡ ok (token, active)
unfolding issue find_license save activations_of get_private_key same trim trim_start is_space
issue_run = refl

remove_run : remove_activation active 7 9 ≡ ok start
unfolding remove_activation find_license save activations_of
remove_run = refl

start-IsConsistent : IsConsistent start
unfolding activations_of
start-IsConsistent = record { counted = (refl, tt); apart = tt }

Reach-IsConsistent_example : IsConsistent start
Reach-IsConsistent_example =
    Reach-IsConsistent {signer = signer} {start = start} {db = start} start-IsConsistent (
      next (next here (issued 7 (text (lit " pc")) 9 100 token tt issue_run))
        (removed 7 9 remove_run))

issue-IsSeated_example : IsSeated start 7 (text (lit " pc")) 100 active
issue-IsSeated_example =
    issue-IsSeated signer start 7 (text (lit " pc")) 9 100 token active issue_run
