-- ===== src/Catalog/Stored.antt =====
-- The records in the Map of src/cloud-workspace-catalog-store.ts, by their keys, when a device's prefix is
-- cleared and its records are put.
use xautojs_devspace.Catalog.{CatalogRecord, delete_prefix, put_records}
use xautojs_devspace.Prelude.{
  ==_iff, All, All-In, In, List, Option, [], arith, false, if◌then◌else◌, inl, inr, is_some, none,
  refl, some, subst, sym, true, ◌++◌, ◌∷◌, ◌≡◌, ◌⊎◌,
}
use xautojs_devspace.Prelude.JsMap.{Entries, Entries-put, JsMap, get, get-put, put}
use xautojs_devspace.Prelude.Text.{Text, starts_with, text_eq}
use xautojs_devspace.Prelude.Text.Laws.{text_eq_iff, text_eq_refl}

starts_with-append : (prefix t : Text) → starts_with (prefix ++ t) prefix ≡ true
unfolding starts_with
starts_with-append [] t = refl
starts_with-append (c ∷ prefix) t = ground (arith, starts_with-append prefix t, ==_iff c c)

delete_prefix-gone :
    (prefix : Text) (m : JsMap CatalogRecord)
    → Entries (λ k r. starts_with k prefix ≡ false) (delete_prefix prefix m)
unfolding delete_prefix
delete_prefix-gone prefix [] = tt
delete_prefix-gone prefix ((k, r) ∷ m) = ground (arith, delete_prefix-gone prefix m)

pub get-delete_prefix :
    (prefix j : Text) (m : JsMap CatalogRecord)
    → starts_with j prefix ≡ false
    → get j (delete_prefix prefix m) ≡ get j m
unfolding delete_prefix get
get-delete_prefix prefix j [] h = refl
get-delete_prefix prefix j ((k, r) ∷ m) h =
    ground (arith, get-delete_prefix prefix j m h, text_eq_iff k j)

pub get-put_records :
    (prefix j : Text) (rs : List CatalogRecord) (m : JsMap CatalogRecord)
    → starts_with j prefix ≡ false
    → get j (put_records prefix rs m) ≡ get j m
unfolding put_records
get-put_records prefix j [] m h = refl
get-put_records prefix j (r ∷ rs) m h =
    let key : Text = prefix ++ r.workspace_ref in
    ground (
      arith,
      get-put_records prefix j rs (put key r m) h,
      get-put key j r m,
      text_eq_iff key j,
      starts_with-append prefix r.workspace_ref,
    )

put_records-Entries :
    (P : Text → CatalogRecord → Type 0) (prefix : Text) (rs : List CatalogRecord)
    (m : JsMap CatalogRecord)
    → All (λ r. P (prefix ++ r.workspace_ref) r) rs
    → Entries P m
    → Entries P (put_records prefix rs m)
unfolding put_records
put_records-Entries P prefix [] m a h = h
put_records-Entries P prefix (r ∷ rs) m a h =
    put_records-Entries P prefix rs (put (prefix ++ r.workspace_ref) r m) a.1
      (Entries-put P (prefix ++ r.workspace_ref) r m a.0 h)

-- A record of the catalog is one of those given.
abbrev pub IsOneOf : Text → List CatalogRecord → Text → CatalogRecord → Type 0
IsOneOf prefix given k r = (starts_with k prefix ≡ false) ⊎ In r given

All-later :
    (prefix : Text) (given rs : List CatalogRecord)
    → ((r : CatalogRecord) → In r rs → In r given)
    → All (λ r. IsOneOf prefix given (prefix ++ r.workspace_ref) r) rs
All-later prefix given [] h = tt
All-later prefix given (r ∷ rs) h =
    (inr (h r (inl refl)), All-later prefix given rs (λ x m. h x (inr m)))

All-gone :
    (prefix : Text) (given : List CatalogRecord) (m : JsMap CatalogRecord)
    → Entries (λ k r. starts_with k prefix ≡ false) m
    → Entries (IsOneOf prefix given) m
All-gone prefix given [] a = tt
All-gone prefix given (e ∷ m) a = (inl a.0, All-gone prefix given m a.1)

pub put_records-IsOneOf :
    (prefix : Text) (given : List CatalogRecord) (m : JsMap CatalogRecord)
    → Entries (IsOneOf prefix given) (put_records prefix given (delete_prefix prefix m))
put_records-IsOneOf prefix given m =
    put_records-Entries (IsOneOf prefix given) prefix given (delete_prefix prefix m)
      (All-later prefix given given (λ r m. m))
      (All-gone prefix given (delete_prefix prefix m) (delete_prefix-gone prefix m))

-- The last of the records with this reference.
unfoldable pub last_under : Text → List CatalogRecord → Option CatalogRecord
last_under ref [] = none
last_under ref (r ∷ rs) = elim (last_under ref rs) [
  | some later ↦ some later
  | none ↦ if text_eq r.workspace_ref ref then some r else none
]

text_eq-append : (p a b : Text) → text_eq (p ++ a) (p ++ b) ≡ text_eq a b
unfolding text_eq
text_eq-append [] a b = refl
text_eq-append (c ∷ p) a b = ground (arith, text_eq-append p a b, ==_iff c c)

get-put_records_under :
    (prefix ref : Text) (rs : List CatalogRecord) (m : JsMap CatalogRecord)
    → get (prefix ++ ref) (put_records prefix rs m)
      ≡ (elim (last_under ref rs) [ some r ↦ some r | none ↦ get (prefix ++ ref) m ])
unfolding put_records last_under
get-put_records_under prefix ref [] m = refl
get-put_records_under prefix ref (r ∷ rs) m = ground (
  arith,
  get-put_records_under prefix ref rs (put (prefix ++ r.workspace_ref) r m),
  get-put (prefix ++ r.workspace_ref) (prefix ++ ref) r m,
  text_eq-append prefix r.workspace_ref ref,
)

In-last_under :
    (rs : List CatalogRecord) (r : CatalogRecord)
    → In r rs
    → is_some (last_under r.workspace_ref rs) ≡ true
unfolding last_under
In-last_under [] r m = elim m [ ]
In-last_under (x ∷ rs) r (inl e) =
    subst (λ (y : CatalogRecord). is_some (last_under y.workspace_ref (x ∷ rs)) ≡ true) (sym e)
      (ground (arith, text_eq_refl x.workspace_ref))
In-last_under (x ∷ rs) r (inr m) = ground (arith, In-last_under rs r m)

pub All-stored :
    (prefix : Text) (given : List CatalogRecord) (m : JsMap CatalogRecord)
    → All
        (λ r.
          get (prefix ++ r.workspace_ref) (put_records prefix given m)
          ≡ last_under r.workspace_ref given)
        given
All-stored prefix given m = All-In _ given λ r member.
    ground
      (arith, get-put_records_under prefix r.workspace_ref given m, In-last_under given r member)
