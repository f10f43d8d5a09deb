-- ===== src/Policy/Normalize/Idempotent.antt =====
-- Normalising twice is normalising once.
use Prim.Native.Nat.{compare, Ordering}
use seter.Prelude.{◌≡◌, refl, sym, ap, ◌∙◌, true, false, List, [], ◌∷◌, map, All, arith}
use seter.Prelude.Text.{Text}
use seter.Prelude.Text.Ascii.{to_ascii_lowercase, to_ascii_lowercase_idem}
use seter.Prelude.Map.{Map, text_cmp}
use seter.Prelude.Order.{is_gt, then_with, sort}
use seter.Prelude.Order.Sorting.{
  IsAsymmetric, text_cmp-swap, text_cmp-eq, text_cmp-asym, sort_idem, sort-All,
}
use seter.Policy.{EgressPolicy, WorkspacePolicy, PolicyFile}
use seter.Policy.Normalize.{
  tcp_cmp, private_cmp, lower_tcp, lower_private, normalize_egress, normalize_workspace, normalize,
}

text_cmp-eq_swap : (s t : Text) → text_cmp s t ≡ Ordering.eq → text_cmp t s ≡ Ordering.eq
text_cmp-eq_swap s t h =
    let same : s ≡ t = text_cmp-eq s t h in
    ap (λ u. text_cmp u s) (sym same) ∙ (ap (λ u. text_cmp s u) same ∙ h)

lexicographic_asym :
    (s t : Text) (o o' : Ordering)
    → (is_gt o ≡ true → is_gt o' ≡ false)
    → is_gt (then_with (text_cmp s t) o) ≡ true
    → is_gt (then_with (text_cmp t s) o') ≡ false
lexicographic_asym s t o o' asym gt = ground (arith, text_cmp-swap s t, text_cmp-eq_swap s t)

tcp_cmp-asym : IsAsymmetric tcp_cmp
tcp_cmp-asym g h =
    lexicographic_asym g.host h.host (compare g.port h.port) (compare h.port g.port)
      (λ gt. ground arith)

private_cmp-asym : IsAsymmetric private_cmp
private_cmp-asym g h = lexicographic_asym g.host h.host _ _ (text_cmp-asym g.address h.address)

module _ {A : Type 0} (cmp : A → A → Ordering) (f : A → A) where
  pub map_fixed : (xs : List A) → All (λ x. f x ≡ x) xs → map f xs ≡ xs
  map_fixed [] h = refl
  map_fixed (x ∷ xs) (e, h) = cc (map_fixed xs h)

  pub All-map : ((x : A) → f (f x) ≡ f x) → (xs : List A) → All (λ x. f x ≡ x) (map f xs)
  All-map idem [] = tt
  All-map idem (x ∷ xs) = (idem x, All-map idem xs)

  sort-map_idem :
      IsAsymmetric cmp
      → ((x : A) → f (f x) ≡ f x)
      → (xs : List A) → sort cmp (map f (sort cmp (map f xs))) ≡ sort cmp (map f xs)
  sort-map_idem asym idem xs =
      ap (sort cmp)
        (map_fixed (sort cmp (map f xs)) (sort-All cmp (λ x. f x ≡ x) (map f xs) (All-map idem xs)))
      ∙ sort_idem cmp asym (map f xs)

normalize_egress_idem :
    (p : EgressPolicy) → normalize_egress (normalize_egress p) ≡ normalize_egress p
unfolding normalize_egress
normalize_egress_idem p = cc (
  sort-map_idem text_cmp to_ascii_lowercase text_cmp-asym to_ascii_lowercase_idem p.http_hosts,
  sort-map_idem text_cmp to_ascii_lowercase text_cmp-asym to_ascii_lowercase_idem
      p.passthrough_hosts,
  sort-map_idem tcp_cmp lower_tcp tcp_cmp-asym (λ g. cc (to_ascii_lowercase_idem g.host)) p.tcp,
  sort-map_idem private_cmp lower_private private_cmp-asym
      (λ g. cc (to_ascii_lowercase_idem g.host)) p.private_http,
)

normalize_entries_idem :
    (m : Map WorkspacePolicy)
    → map normalize_workspace (map normalize_workspace m) ≡ map normalize_workspace m
normalize_entries_idem [] = refl
normalize_entries_idem (e ∷ m) = cc (normalize_egress_idem e.1.egress, normalize_entries_idem m)

-- Normalising a Policy File a second time changes nothing.
pub normalize_idem : (p : PolicyFile) → normalize (normalize p) ≡ normalize p
unfolding normalize
normalize_idem p = cc (normalize_entries_idem p.workspaces)
