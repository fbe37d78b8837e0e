-- ===== src/Pod/Rules.antt =====
-- Names and references of lists of mounts and volumes.
use odoo_operator.Base.{
  String, ◌≡◌, refl, ap, ◌∙◌, List, [], ◌∷◌, ◌++◌, map, All, All-imp, In, inl, inr,
}
use odoo_operator.Value.{Value, items}
use odoo_operator.Pod.{entry, names, refs}

-- A list of volumes goes on with others.
pub In-names_later :
    (n : Value) (vs ws : List Value) → In n (names (items ws)) → In n (names (items (vs ++ ws)))
unfolding names
In-names_later n [] ws i = i
In-names_later n (v ∷ vs) ws i = inr (In-names_later n vs ws i)

-- A volume for each key, under the name of its mount.
pub key_mounts-covered :
    (mount volume : String → Value)
    → ((k : String) → entry "name" (mount k) ≡ entry "name" (volume k))
    → (ks : List String) (ws : List Value)
    → All (λ n. In n (names (items (map volume ks ++ ws)))) (names (items (map mount ks)))
unfolding names
key_mounts-covered mount volume e [] ws = tt
key_mounts-covered mount volume e (k ∷ ks) ws =
    (inl (e k), All-imp _ _ _ (λ n i. inr i) (key_mounts-covered mount volume e ks ws))

-- Volumes of secrets refer to no claim and no config map.
pub refs-secrets :
    (namespace : String) (volume : String → Value)
    → ((k : String) (ws : List Value)
        → refs namespace (items (volume k ∷ ws)) ≡ refs namespace (items ws))
    → (ks : List String) (ws : List Value)
    → refs namespace (items (map volume ks ++ ws)) ≡ refs namespace (items ws)
refs-secrets namespace volume e [] ws = refl
refs-secrets namespace volume e (k ∷ ks) ws =
    e k (map volume ks ++ ws) ∙ refs-secrets namespace volume e ks ws

-- Mounts and volumes for the same keys, and others after them.
pub key_mounts-names :
    (mount volume : String → Value)
    → ((k : String) → entry "name" (mount k) ≡ entry "name" (volume k))
    → (ks : List String) (ms ws : List Value) → names (items ms) ≡ names (items ws)
    → names (items (map mount ks ++ ms)) ≡ names (items (map volume ks ++ ws))
unfolding names
key_mounts-names mount volume e [] ms ws r = r
key_mounts-names mount volume e (k ∷ ks) ms ws r =
    rw (e k) (ap (λ ns. entry "name" (volume k) ∷ ns) (key_mounts-names mount volume e ks ms ws r))

pub All-self : (xs : List Value) → All (λ n. In n xs) xs
All-self [] = tt
All-self (x ∷ xs) = (inl refl, All-imp _ _ xs (λ n i. inr i) (All-self xs))
