-- ===== src/Registry/Keyed/Changes.antt =====
-- What a call of a registry may make of its map: it leaves it, it adds an accepted value under a
-- new identity, it replaces a value by an accepted one, or it deletes one.
use aqua_os.Common.{
  String, Option, none, some, Result, ok, err, Check, Context, ◌≡◌, if-elim, refl, string_eq,
}
use aqua_os.Common.Map.{Map, lookup, insert, delete}
use aqua_os.Events.Event.{EventType}
use aqua_os.Registry.Keyed.{
  Kind, Surroundings, store_new, register_valid, register_named, assign_id, register, update_found,
  update_valid, update, remove_found, remove, Answer,
}

module _ {A : Type 0} (kind : Kind A) (event_type : EventType) (m : Map String A) where
  -- A property of maps that the old one has, and the old one with an accepted new value.
  module _ (P : Map String A → Type 0) (validate : A → Check) (old : P m)
      (added : (v : A)
        → validate v ≡ ok tt
        → lookup (kind.id_of v) m ≡ none
        → P (insert (kind.id_of v) v m)) where
    store_new-keeps :
        (around : Surroundings A) (v : A) (o : Option A)
        → lookup (kind.id_of v) m ≡ o
        → validate v ≡ ok tt
        → P (store_new kind event_type m around v o).0
    unfolding store_new
    store_new-keeps around v none miss valid = added v valid miss
    store_new-keeps around v (some _) hit valid = old

    register_valid-keeps :
        (around : Surroundings A) (v : A) (c : Check)
        → validate v ≡ c
        → P (register_valid kind event_type m around v c).0
    unfolding register_valid
    register_valid-keeps around v (err x) q = old
    register_valid-keeps around v (ok u) q =
        store_new-keeps around v (lookup (kind.id_of v) m) refl q

    register_named-keeps :
        (around : Surroundings A) (r : Result A)
        → P (register_named kind validate event_type m around r).0
    unfolding register_named
    register_named-keeps around (err x) = old
    register_named-keeps around (ok v) = register_valid-keeps around v (validate v) refl

    pub register-keeps :
        (ctx : Context) (v : A) (fresh : Result String) (around : Surroundings A)
        → P (register kind validate event_type m ctx v fresh around).0
    unfolding register
    register-keeps ctx v fresh around =
        if-elim (λ (r : Map String A × Answer kind). P r.0) ctx.cancelled _ _ (λ _. old)
          (λ _. register_named-keeps around (assign_id kind v fresh))

  module _ (P : Map String A → Type 0) (validate : A → Check) (old : P m)
      (replaced : (v w : A)
        → validate v ≡ ok tt
        → lookup (kind.id_of v) m ≡ some w
        → P (insert (kind.id_of v) v m)) where
    update_found-keeps :
        (around : Surroundings A) (v : A) (o : Option A)
        → lookup (kind.id_of v) m ≡ o
        → validate v ≡ ok tt
        → P (update_found kind event_type m around v o).0
    unfolding update_found
    update_found-keeps around v none miss valid = old
    update_found-keeps around v (some w) hit valid = replaced v w valid hit

    update_valid-keeps :
        (around : Surroundings A) (v : A) (c : Check)
        → validate v ≡ c
        → P (update_valid kind event_type m around v c).0
    unfolding update_valid
    update_valid-keeps around v (err x) q = old
    update_valid-keeps around v (ok u) q =
        update_found-keeps around v (lookup (kind.id_of v) m) refl q

    pub update-keeps :
        (ctx : Context) (v : A) (around : Surroundings A)
        → P (update kind validate event_type m ctx v around).0
    unfolding update
    update-keeps ctx v around =
        if-elim (λ (r : Map String A × Check). P r.0) ctx.cancelled _ _ (λ _. old)
          (λ _. update_valid-keeps around v (validate v) refl)

  module _ (P : Map String A → Type 0) (old : P m) where
    remove_found-keeps :
        (around : Surroundings String) (id : String) (o : Option A)
        → P (delete id m)
        → P (remove_found kind event_type m around id o).0
    unfolding remove_found
    remove_found-keeps around id none deleted = old
    remove_found-keeps around id (some w) deleted = deleted

    pub remove-keeps :
        (ctx : Context) (id : String) (around : Surroundings String)
        → P (delete id m)
        → P (remove kind event_type m ctx id around).0
    unfolding remove
    remove-keeps ctx id around deleted =
        if-elim (λ (r : Map String A × Check). P r.0) ctx.cancelled _ _ (λ _. old)
          (λ _. remove_found-keeps around id (lookup id m) deleted)
