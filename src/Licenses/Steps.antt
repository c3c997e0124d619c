-- ===== src/Licenses/Steps.antt =====
-- Every sequence of operations on the licenses keeps their invariant.
use reeva.Prelude.{ℕ, ◌≡◌, ◌≢◌, Text, All, ok}
use reeva.Model.{Uuid}
use reeva.Input.{Value}
use reeva.Licenses.{
  Activation, Licensing, Token, Signer, issue, remove_activation, toggle, delete, LicenseUpdate,
  update_license, create,
}
use reeva.Licenses.Invariant.{
  IsConsistent, toggle-IsConsistent, delete-IsConsistent, update_license-IsConsistent,
  create-IsConsistent,
}
use reeva.Licenses.Issue.{issue-IsIssued, issue-IsConsistent}
use reeva.Licenses.Remove.{remove_activation-IsConsistent}

-- One operation on the licenses; the ids that it makes are new, as random UUIDs are.
pub data Step (signer : Signer) : Licensing → Licensing → Type 0 where
  issued :
      {db d : Licensing} (id : Uuid) (machine : Value) (fresh : Uuid) (now : ℕ) (t : Token)
      → All (λ (a : Activation). a.id ≢ fresh) db.activations
      → issue signer db id machine fresh now ≡ ok (t, d)
      → Step signer db d
  removed :
      {db d : Licensing} (license_id activation_id : Uuid)
      → remove_activation db license_id activation_id ≡ ok d
      → Step signer db d
  toggled : {db d : Licensing} (id : Uuid) → toggle db id ≡ ok d → Step signer db d
  deleted : {db d : Licensing} (id : Uuid) (now : ℕ) → delete db id now ≡ ok d → Step signer db d
  updated :
      {db d : Licensing} (id : Uuid) (u : LicenseUpdate) (now : ℕ)
      → update_license db id u now ≡ ok d
      → Step signer db d
  created :
      {db d : Licensing} (fresh : Uuid) (key : Text) (u : LicenseUpdate)
      → All (λ (a : Activation). a.license_id ≢ fresh) db.activations
      → d ≡ create db fresh key u
      → Step signer db d

pub data Reach (signer : Signer) (start : Licensing) : Licensing → Type 0 where
  here : Reach signer start start
  next : {db d : Licensing} → Reach signer start db → Step signer db d → Reach signer start d

Step-IsConsistent :
    {signer : Signer} {db d : Licensing} → Step signer db d → IsConsistent db → IsConsistent d
Step-IsConsistent {signer} {db} {d} (issued id machine fresh now t n h) k =
    issue-IsConsistent signer db d id machine fresh now n
      (issue-IsIssued signer db id machine fresh now t d h) k
Step-IsConsistent {db = db} {d = d} (removed license_id activation_id h) k =
    remove_activation-IsConsistent db d license_id activation_id h k
Step-IsConsistent {db = db} {d = d} (toggled id h) k = toggle-IsConsistent db d id h k
Step-IsConsistent {db = db} {d = d} (deleted id now h) k = delete-IsConsistent db d id now h k
Step-IsConsistent {db = db} {d = d} (updated id u now h) k =
    update_license-IsConsistent db d id u now h k
Step-IsConsistent {db = db} {d = d} (created fresh key u n e) k =
    rw e (create-IsConsistent db fresh key u n k)

-- Whatever sequence of activations, removals, edits, deletions and creations runs, one transaction
-- after the other, from a consistent state: every license's stored count is the number of its
-- activations, and no machine is activated twice for one license. New ids are taken to be unused.
pub Reach-IsConsistent :
    {signer : Signer} {start db : Licensing}
    → IsConsistent start
    → Reach signer start db
    → IsConsistent db
Reach-IsConsistent h here = h
Reach-IsConsistent h (next r s) = Step-IsConsistent s (Reach-IsConsistent h r)
