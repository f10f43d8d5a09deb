-- ===== src/Registry/Validate/Unique.antt =====
-- No two workspaces of a validated registry share an address, a MAC, a tap or a host name.
use mathlib.Core.Bool.{false≢true}
use seter.Prelude.{
  ◌≡◌, sym, ap, ◌∙◌, not, List, ◌∷◌, contains_iff, In, ok, bind-eq-ok, seq-eq-ok, ensure-eq-ok,
  try_fold, eqb_iff,
}
use seter.Prelude.Eq.{Eq, list_eq, nat_eq}
use seter.Prelude.Loops.{Distinct, try_fold-Distinct}
use seter.Prelude.Text.{Text}
use seter.Prelude.Text.Ascii.{to_ascii_lowercase}
use seter.Prelude.Ipv4.{Ipv4Addr, address_eq}
use seter.Registry.{Registry, Workspace}
use seter.Registry.Validate.{
  insert_unique, Seen, unseen, validate_unique, validate_workspace, validate, validate_repositories,
  validate_identity, validate_limits, validate_storage, registry_version,
}

pub insert_unique-ok :
    {A E : Type 0} ⦃e : Eq A⦄ (set : List A) (x : A) (error : E) {set' : List A}
    → insert_unique set x error ≡ ok set'
    → (¬ In x set) × (set' ≡ x ∷ set)
unfolding insert_unique
insert_unique-ok set x error h =
    let (new, same) = seq-eq-ok _ _ h in
    let absent = ensure-eq-ok _ _ new in
    ((λ m. false≢true (sym (ap not ((contains_iff set x).1 m)) ∙ absent)), cc)

abbrev pub address : Text × Workspace → Ipv4Addr
address e = e.1.network.address

abbrev pub mac : Text × Workspace → Text
mac e = to_ascii_lowercase e.1.network.mac

abbrev pub tap : Text × Workspace → Text
tap e = e.1.network.tap

abbrev pub hostname : Text × Workspace → Text
hostname e = to_ascii_lowercase e.1.hostname

validate_unique-ok :
    (s : Seen) (name : Text) (w : Workspace) {s' : Seen}
    → validate_unique s name w ≡ ok s'
    → ((¬ In (address (name, w)) s.addresses) × (s'.addresses ≡ address (name, w) ∷ s.addresses))
      × ((¬ In (mac (name, w)) s.macs) × (s'.macs ≡ mac (name, w) ∷ s.macs))
      × ((¬ In (tap (name, w)) s.taps) × (s'.taps ≡ tap (name, w) ∷ s.taps))
      × ((¬ In (hostname (name, w)) s.hostnames)
          × (s'.hostnames ≡ hostname (name, w) ∷ s.hostnames))
unfolding validate_unique
validate_unique-ok s name w h =
    let (addresses, ha, h₁) = bind-eq-ok _ _ h in
    let (macs, hm, h₂) = bind-eq-ok _ _ h₁ in
    let (taps, ht, h₃) = bind-eq-ok _ _ h₂ in
    let (hostnames, hh, h₄) = bind-eq-ok _ _ h₃ in
    let (a, a') = insert_unique-ok _ _ _ ha in
    let (m, m') = insert_unique-ok _ _ _ hm in
    let (t, t') = insert_unique-ok _ _ _ ht in
    let (n, n') = insert_unique-ok _ _ _ hh in ((a, cc), (m, cc), (t, cc), (n, cc))

-- The parts of a round that ended without an error.
pub validate_workspace-ok :
    (s : Seen) (name : Text) (w : Workspace) {s' : Seen}
    → validate_workspace s (name, w) ≡ ok s'
    → (validate_repositories name w ≡ ok tt)
      × (validate_identity name w ≡ ok tt)
      × (validate_limits name w ≡ ok tt)
      × (validate_storage name w ≡ ok tt)
      × (validate_unique s name w ≡ ok s')
unfolding validate_workspace
validate_workspace-ok s name w h =
    let (r, h₁) = seq-eq-ok _ _ h in
    let (i, h₂) = seq-eq-ok _ _ h₁ in
    let (l, h₃) = seq-eq-ok _ _ h₂ in let (v, u) = seq-eq-ok _ _ h₃ in (r, i, l, v, u)

pub rounds_of_validate :
    (r : Registry)
    → validate r ≡ ok tt
    → (r.version ≡ registry_version)
      × ((s : Seen) × (try_fold validate_workspace unseen r.workspaces ≡ ok s))
unfolding validate
rounds_of_validate r h =
    let (v, h₁) = seq-eq-ok _ _ h in
    let (s, folded, _) = bind-eq-ok _ _ h₁ in
    ((eqb_iff r.version registry_version).0 (ensure-eq-ok _ _ v), (s, folded))

-- In a registry that `validate` accepts, no two workspaces have the same IPv4 address, MAC address
-- (ignoring ASCII case), tap interface or host name (ignoring ASCII case).
pub validate-Distinct :
    (r : Registry)
    → validate r ≡ ok tt
    → Distinct address r.workspaces
      × Distinct mac r.workspaces
      × Distinct tap r.workspaces
      × Distinct hostname r.workspaces
validate-Distinct r h =
    let folded = (rounds_of_validate r h).1.1 in
    (
      try_fold-Distinct _ (λ t. t.addresses) address (λ t e t' k. (fresh t e t' k).0) unseen
          r.workspaces folded,
      try_fold-Distinct _ (λ t. t.macs) mac (λ t e t' k. (fresh t e t' k).1) unseen r.workspaces
          folded,
      try_fold-Distinct _ (λ t. t.taps) tap (λ t e t' k. (fresh t e t' k).2) unseen r.workspaces
          folded,
      try_fold-Distinct _ (λ t. t.hostnames) hostname (λ t e t' k. (fresh t e t' k).3) unseen
          r.workspaces folded,
    )
  where
    fresh :
        (t : Seen) (e : Text × Workspace) (t' : Seen)
        → validate_workspace t e ≡ ok t'
        → ((¬ In (address e) t.addresses) × (t'.addresses ≡ address e ∷ t.addresses))
          × ((¬ In (mac e) t.macs) × (t'.macs ≡ mac e ∷ t.macs))
          × ((¬ In (tap e) t.taps) × (t'.taps ≡ tap e ∷ t.taps))
          × ((¬ In (hostname e) t.hostnames) × (t'.hostnames ≡ hostname e ∷ t.hostnames))
    fresh t (name, w) t' k = validate_unique-ok t name w (validate_workspace-ok t name w k).4
