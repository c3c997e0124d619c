-- ===== src/Uploads/Deletions.antt =====
-- What is left of the stores after the deletions of a round of the clean-up.
use reeva.Prelude.{
  ℕ, ◌≡◌, ◌≢◌, refl, sym, ap, ◌∙◌, Bool, true, false, inl, inr, and_left, and_right, List, [], ◌∷◌,
  Memᴰ, Text, leb, ◌==◌, ==→eq, mem-remove, Bool-cases, All, exists, mem_of_exists,
}
use reeva.Model.{Uuid}
use reeva.Uploads.Quota.{
  Reservation, StoredObject, Uploading, payload_key, is_object, is_expired, delete_object,
  delete_payloads, in_batch,
}

pub gone :
    (db : Uploading) (p : Uuid) (key : Text) (o : StoredObject)
    → Memᴰ o (delete_object db p key).objects
    → Memᴰ o db.objects × (is_object p key o ≡ false)
unfolding delete_object
gone db p key o m = mem-remove (is_object p key) db.objects m

pub differ :
    (p : Uuid) (key : Text) (x o : StoredObject)
    → is_object p key x ≡ true
    → is_object p key o ≡ false
    → x ≢ o
differ p key x o t f e = cc (ap (is_object p key) e)

module _ (show_id : Uuid → Text) (deletes : Reservation → Bool) (p : Uuid) where
  go_on :
      (r : Reservation) (rows : List Reservation) (db : Uploading)
      → deletes r ≡ true
      → delete_payloads show_id deletes p (r ∷ rows) db
        ≡ delete_payloads show_id deletes p rows (delete_object db p (payload_key show_id r.id))
  unfolding delete_payloads
  go_on r rows db t = rw t refl

  stop :
      (r : Reservation) (rows : List Reservation) (db : Uploading)
      → deletes r ≡ false
      → delete_payloads show_id deletes p (r ∷ rows) db ≡ (false, db)
  unfolding delete_payloads
  stop r rows db f = rw f refl

  finished : (db : Uploading) → delete_payloads show_id deletes p [] db ≡ (true, db)
  unfolding delete_payloads
  finished db = refl

  pub delete_payloads-subset :
      (rows : List Reservation) (db : Uploading) (o : StoredObject) (d : Bool × Uploading)
      → delete_payloads show_id deletes p rows db ≡ d
      → Memᴰ o d.1.objects
      → Memᴰ o db.objects
  delete_payloads-subset [] db o d e m =
      rw (ap (λ (x : Bool × Uploading). x.1.objects) (sym e ∙ finished db)) at m
  delete_payloads-subset (r ∷ rows) db o d e m = elim (Bool-cases (deletes r)) [
    | inl t ↦
        (gone db p (payload_key show_id r.id) o (
          delete_payloads-subset rows (delete_object db p (payload_key show_id r.id)) o d
            (sym (go_on r rows db t) ∙ e) m)).0
    | inr f ↦ rw (ap (λ (x : Bool × Uploading). x.1.objects) (sym e ∙ stop r rows db f)) at m
  ]

  -- After a loop that ends well, no object of the batch is left.
  pub delete_payloads-gone :
      (rows : List Reservation) (db : Uploading) (d : Bool × Uploading)
      → delete_payloads show_id deletes p rows db ≡ d
      → d.0 ≡ true
      → All
          (λ (r : Reservation).
            (o : StoredObject)
            → Memᴰ o d.1.objects
            → is_object p (payload_key show_id r.id) o ≡ false)
          rows
  delete_payloads-gone [] db d e run = tt
  delete_payloads-gone (r ∷ rows) db d e run = elim (Bool-cases (deletes r)) [
    | inl t ↦
        let last : delete_payloads show_id deletes p rows
              (delete_object db p (payload_key show_id r.id))
            ≡ d =
          sym (go_on r rows db t) ∙ e in
        (
          (λ o m.
              (gone db p (payload_key show_id r.id) o (
                delete_payloads-subset rows (delete_object db p (payload_key show_id r.id)) o d last
                  m)).1),
          delete_payloads-gone rows (delete_object db p (payload_key show_id r.id)) d last run,
        )
    | inr f ↦ absurd (cc (run, ap (λ (x : Bool × Uploading). x.0) (sym e ∙ stop r rows db f)))
  ]

pub in_batch_row :
    (p : Uuid) (now : ℕ) (rows : List Reservation) (s : Reservation)
    → in_batch p now rows s ≡ true
    → (s.storage_provider_id ≡ p) × (r : Reservation) × Memᴰ r rows × (r.id ≡ s.id)
in_batch_row p now rows s b =
    let own : is_expired p now s ≡ true = and_left _ _ b in
    let found : exists (λ (r : Reservation). r.id == s.id) rows ≡ true = and_right _ _ b in
    let (r, k, i) = mem_of_exists (λ (r : Reservation). r.id == s.id) rows found in
    (
      ==→eq s.storage_provider_id p
          (and_left (s.storage_provider_id == p) (leb s.expires_at now) own),
      r,
      k,
      ==→eq r.id s.id i,
    )
