-- ===== src/Policy/Review/Safe.antt =====
-- However a review ends, the Policy File is as before or has what was agreed to.
use seter.Prelude.{
  length, length-append, arith, ◌≡◌, ◌≢◌, refl, sym, ap, ◌∙◌, ◌⊎◌, inl, inr, Option, none, some,
  List, ◌++◌, Result, ok, err, bind-eq-ok, seq-eq-ok, with_context-eq-ok, ok_inj, err-not-ok,
  pair-eq, and_then, Bool-cases,
}
use seter.Prelude.Eq.{nat_eq, list_eq}
use seter.Prelude.Text.{Text, text}
use seter.Registry.{Registry}
use seter.Policy.Replace.{Node, Files, atomic_write, temporary_in, directory_of}
use seter.Policy.Replace.Atomic.{set_file-other, atomic_write-IsAtomic}
use seter.Policy.Review.Writing.{
  RunError, Ending, updated, Setting, lock, lock_path, with_lock, contents_of, written, read_file,
  review_file,
}
use seter.Policy.Review.Agreed.{IsAgreed, choose-IsAgreed}

longer : (s : Text) → s ++ text ".lock" ≢ s
longer s e =
    let lengths : length (s ++ text ".lock") ≡ length s = ap length e in
    omega (arith, length-append s (text ".lock"), lengths)

module _ (setting : Setting) (name file : Text) (answers : List (Option Text))
    (before : Files) where
  -- The file's new contents were agreed to, and it has the mode that it had.
  abbrev pub IsWritten : Files → Type 0
  IsWritten after =
      (registry : Registry) × (old : Node) × (rendered : Text) × (setting.registry ≡ ok registry)
      × (before file ≡ some old)
      × (after file ≡ some record { contents = rendered; mode = old.mode })
      × IsAgreed setting registry name old.contents answers rendered

  abbrev pub IsSafe : Result RunError Ending × Files → Type 0
  IsSafe (result, after) = (after file ≡ before file) × (result ≢ ok updated) ⊎ IsWritten after

  IsAgreed-on :
      (original original' : Text)
      → original ≡ original'
      → (registry : Registry) (rendered : Text)
      → IsAgreed setting registry name original answers rendered
      → IsAgreed setting registry name original' answers rendered
  IsAgreed-on original original' e registry rendered h = rw (← e) h

  IsSafe-and_then :
      {A : Type 0} (first : Result RunError A × Files)
      (next : A → Files → Result RunError Ending × Files)
      → first.1 file ≡ before file
      → ((a : A) (now : Files) → first ≡ (ok a, now) → now file ≡ before file → IsSafe (next a now))
      → IsSafe (and_then first next)
  unfolding and_then
  IsSafe-and_then (ok a, now) next same later = later a now refl same
  IsSafe-and_then (err e, now) next same later = inl (same, λ h. err-not-ok h)

  lock-keeps : (now : Files) → (lock setting (lock_path setting file) now).1 file ≡ now file
  unfolding lock
  lock-keeps now = elim (Bool-cases (setting.cannot_open (lock_path setting file))) [
    | inl stuck ↦ rw stuck refl
    | inr free ↦ rw free (kept (now (lock_path setting file)))
  ]
    where
      kept : (o : Option Node) → with_lock setting o (lock_path setting file) now file ≡ now file
      kept (some node) = refl
      kept none = set_file-other (lock_path setting file) _ now file (λ e. longer file (sym e))

  contents_of-eq-ok :
      (o : Option Node) (original : Text)
      → contents_of setting file o ≡ ok original
      → (node : Node) × (o ≡ some node) × (node.contents ≡ original)
  contents_of-eq-ok none original h = absurd (err-not-ok h)
  contents_of-eq-ok (some node) original h = elim (Bool-cases (setting.cannot_read file)) [
    | inl stuck ↦ absurd (err-not-ok (rw stuck at h))
    | inr free ↦ (node, refl, ok_inj (rw free at h))
  ]

  module _ (base : Text) (named : setting.disk.file_name file ≡ some base)
      (distinct : temporary_in setting.disk (directory_of setting.disk file) base ≢ file) where
    written-IsSafe :
        (registry : Registry)
        → setting.registry ≡ ok registry
        → (now : Files) → now file ≡ before file
        → (node : Node) → now file ≡ some node
        → (rendered : Text) → IsAgreed setting registry name node.contents answers rendered
        → (ending : Ending)
        → IsSafe (written setting (atomic_write setting.disk file rendered now) ending)
    written-IsSafe registry found now same node there rendered agreed ending =
        let (others, settled, temporary) =
          atomic_write-IsAtomic setting.disk file rendered base now named distinct in
        let wrote : (old : Node) × (now file ≡ some old)
              × ((atomic_write setting.disk file rendered now).1 file
                  ≡ some record { contents = rendered; mode = old.mode })
            → IsWritten (atomic_write setting.disk file rendered now).1 =
          λ (old, was, is).
            let e : some node ≡ some old = sym there ∙ was in
            let e' : old ≡ node = cc in
            (
              registry,
              node,
              rendered,
              found,
              sym same ∙ there,
              is ∙ ap (λ (n : Node). some record { contents = rendered; mode = n.mode }) e',
              agreed,
            ) in
        elim settled [
          | inl (kept, e, bad) ↦
              inl (
                kept ∙ same,
                λ h. err-not-ok (sym bad ∙ with_context-eq-ok _ _ (seq-eq-ok _ _ h).0),
              )
          | inr new ↦ inr (wrote new)
        ]

    -- If the file has a name and is not the new file that a replacement makes beside it: however the review ends, the
    -- Policy File is as before and no update is reported, or what was agreed to was written.
    pub review_file-IsSafe : IsSafe (review_file setting name file answers before)
    unfolding review_file read_file
    review_file-IsSafe = IsSafe-and_then _ _ refl λ registry files₁ found same₁.
        IsSafe-and_then _ _ same₁ λ configured files₂ known same₂.
          IsSafe-and_then _ _ (lock-keeps files₂ ∙ same₂) λ locked files₃ held same₃.
            IsSafe-and_then _ _ same₃ λ (ending, choice) files₄ chose same₄.
              let (chosen_ok, state) = pair-eq chose in
              let (original, read, chooses) = bind-eq-ok _ _ chosen_ok in
              let (node, there, contents) = contents_of-eq-ok (files₃ file) original read in
              let here : files₄ file ≡ some node = ap (λ (f : Files). f file) (sym state) ∙ there in
              let found' = with_context-eq-ok _ _ (pair-eq found).0 in
              elim (choose-IsAgreed setting registry name original answers ending choice chooses) [
                | inl (nothing, not_updated) ↦ rw nothing (inl (same₄, λ h. not_updated (ok_inj h)))
                | inr (rendered, something, agreed) ↦ rw something (
                    written-IsSafe registry found' files₄ same₄ node here rendered
                      (IsAgreed-on original node.contents (sym contents) registry rendered agreed)
                      ending)
              ]
