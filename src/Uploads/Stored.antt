-- ===== src/Uploads/Stored.antt =====
-- That the objects of the stores and the rows of the tables agree.
use reeva.Prelude.{
  ◌≡◌, ◌≢◌, sym, ◌∙◌, Bool, true, false, ◌⊎◌, inl, inr, and_intro, and_right, Memᴰ, Text, lit, ◌==◌,
  ==_refl, same, same_refl, same→eq, remove, mem-remove, mem-remove_intro, Bool-cases,
}
use mathlib.Core.List.{append_cancel_left, append_cancel_right}
use reeva.Model.{Uuid, Artifact}
use reeva.Uploads.Quota.{
  Reservation, StoredObject, Uploading, payload_key, is_object, delete_object,
}

abbrev pub object_at : Artifact → StoredObject
object_at a = record { provider_id = a.storage_provider_id; key = a.storage_key }

abbrev pub HasArtifact : Uploading → StoredObject → Type 0
HasArtifact db o = (a : Artifact) × Memᴰ a db.catalog.artifacts × (object_at a ≡ o)

abbrev pub object_for : (Uuid → Text) → Reservation → StoredObject
object_for show_id r = record {
  provider_id = r.storage_provider_id;
  key = payload_key show_id r.id;
}

abbrev pub HasReservation : (Uuid → Text) → Uploading → StoredObject → Type 0
HasReservation show_id db o =
    (r : Reservation) × Memᴰ r db.reservations × (object_for show_id r ≡ o)

pub record IsStored (show_id : Uuid → Text) (db : Uploading) : Type 0 where
  -- every object belongs to an artifact, or to a reservation that the clean-up finds
  pub tracked :
      (o : StoredObject) → Memᴰ o db.objects → HasArtifact db o ⊎ HasReservation show_id db o
  -- the object of every artifact is there
  pub kept :
      (a : Artifact)
      → Memᴰ a db.catalog.artifacts
      → (a.storage_key ≡ payload_key show_id a.id) × Memᴰ (object_at a) db.objects
  pub apart :
      (r : Reservation) (a : Artifact)
      → Memᴰ r db.reservations
      → Memᴰ a db.catalog.artifacts
      → r.id ≢ a.id
  pub keyed :
      (r s : Reservation) → Memᴰ r db.reservations → Memᴰ s db.reservations → r.id ≡ s.id → r ≡ s

pub payload_key-injective :
    (show_id : Uuid → Text)
    → ((i j : Uuid) → show_id i ≡ show_id j → i ≡ j)
    → (i j : Uuid) → payload_key show_id i ≡ payload_key show_id j
    → i ≡ j
payload_key-injective show_id injective i j e = injective i j (
    append_cancel_right (show_id i) (show_id j) (lit "/payload")
      (append_cancel_left (lit "artifacts/") _ _ e))

pub is_object_at :
    (p : Uuid) (key : Text) (o : StoredObject)
    → o.provider_id ≡ p
    → o.key ≡ key
    → is_object p key o ≡ true
is_object_at p key o e k = rw (e, k) (and_intro (p == p) (same key key) (==_refl p) (same_refl key))

-- Objects that no artifact names may go.
pub drop_object-IsStored :
    (show_id : Uuid → Text) (db : Uploading) (p : Uuid) (key : Text)
    → ((a : Artifact) → Memᴰ a db.catalog.artifacts → is_object p key (object_at a) ≡ false)
    → IsStored show_id db
    → IsStored show_id (delete_object db p key)
unfolding delete_object
drop_object-IsStored show_id db p key unnamed h = record {
  tracked = λ o m. h.tracked o ((mem-remove (is_object p key) db.objects m).0);
  kept = λ a m.
      let (e, k) = h.kept a m in (e, mem-remove_intro (is_object p key) db.objects k (unnamed a m));
  apart = h.apart;
  keyed = h.keyed;
}

-- Reservations without an object may go.
pub drop_reservations-IsStored :
    (show_id : Uuid → Text) (db : Uploading) (q : Reservation → Bool)
    → ((r : Reservation)
        → Memᴰ r db.reservations
        → q r ≡ true
        → (o : StoredObject) → Memᴰ o db.objects
        → object_for show_id r ≢ o)
    → IsStored show_id db
    → IsStored show_id (record db { reservations = remove q db.reservations })
drop_reservations-IsStored show_id db q empty h = record {
  tracked = λ o m. elim (h.tracked o m) [
    | inl a ↦ inl a
    | inr (r, n, e) ↦ elim (Bool-cases (q r)) [
      | inl t ↦ absurd (empty r n t o m e)
      | inr f ↦ inr (r, mem-remove_intro q db.reservations n f, e)
    ]
  ];
  kept = h.kept;
  apart = λ r a m n. h.apart r a ((mem-remove q db.reservations m).0) n;
  keyed = λ r s m n.
      h.keyed r s ((mem-remove q db.reservations m).0) ((mem-remove q db.reservations n).0);
}

-- The deletion of the object of a reservation
pub delete_reserved-IsStored :
    (show_id : Uuid → Text)
    → ((i j : Uuid) → show_id i ≡ show_id j → i ≡ j)
    → (db : Uploading) (p : Uuid) (r : Reservation) → Memᴰ r db.reservations
    → IsStored show_id db
    → IsStored show_id (delete_object db p (payload_key show_id r.id))
delete_reserved-IsStored show_id injective db p r m h =
    drop_object-IsStored show_id db p _ (unnamed db p r m h) h
  where
    unnamed :
        (db : Uploading) (p : Uuid) (r : Reservation)
        → Memᴰ r db.reservations
        → IsStored show_id db
        → (a : Artifact) → Memᴰ a db.catalog.artifacts
        → is_object p (payload_key show_id r.id) (object_at a) ≡ false
    unnamed db p r m h a n =
        elim (Bool-cases (is_object p (payload_key show_id r.id) (object_at a))) [
          | inl t ↦ absurd (
              h.apart r a m n (
                payload_key-injective show_id injective r.id a.id (
                  sym (same→eq a.storage_key (payload_key show_id r.id) (and_right _ _ t))
                  ∙ (h.kept a n).0)))
          | inr f ↦ f
        ]
