-- ===== src/Device/Descriptors.antt =====
-- The open descriptors or handles of a process, as the system calls change them.
use libsmp.Base.{
  ℕ, ◌≡◌, ◌≢◌, sym, ◌∙◌, Bool, true, false, ◌==◌, Bool-cases, ==_sound, ==→ne, inl, inr,
}

-- The descriptor `fd` was not open and is open now, and else nothing changed.
pub record OneMore (before after : ℕ → Bool) (fd : ℕ) : Type 0 where
  pub fresh : before fd ≡ false
  pub open_now : after fd ≡ true
  pub others : (i : ℕ) → i ≢ fd → after i ≡ before i

pub OneMore-keeps :
    {before after later : ℕ → Bool} {fd : ℕ}
    → OneMore before after fd
    → ((i : ℕ) → later i ≡ after i)
    → OneMore before later fd
OneMore-keeps {fd = fd} m k = record {
  fresh = m.fresh;
  open_now = k fd ∙ m.open_now;
  others = λ i ne. k i ∙ m.others i ne;
}

-- Where that descriptor is closed, all is as it was.
pub OneMore-closed :
    {before after later : ℕ → Bool} {fd : ℕ}
    → OneMore before after fd
    → later fd ≡ false
    → ((i : ℕ) → i ≢ fd → later i ≡ after i)
    → (i : ℕ) → later i ≡ before i
OneMore-closed {before} {after} {later} {fd} m closed k i = elim (Bool-cases (i == fd)) [
  | inl e ↦ rw (==_sound i fd e) (closed ∙ sym m.fresh)
  | inr e ↦ k i (==→ne i fd e) ∙ m.others i (==→ne i fd e)
]
