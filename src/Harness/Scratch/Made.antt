-- ===== src/Harness/Scratch/Made.antt =====
-- packages/emu86/harness/harness.c: what a copy that succeeded has done.
use huxley.Base.{ℕ, ◌≡◌, refl, ap, Option-cases, inl, inr}
use huxley.Base.{Bool, true, false, some, List}
use huxley.Harness.Scratch.{Copying, copy_loop, copy_file, close_both}

module _ {F : Type 0} (sys : Copying F) (fuel writes : ℕ) where
  -- From `files` on the source was opened and the copy created, the loop came to the end of the
  -- source without an error, and the copy was closed without one.
  pub record Made (src dst : List ℕ) (files : F) : Type 0 where
    pub sfd : ℕ
    pub dfd : ℕ
    pub opened : (sys.open_source src files).0 ≡ some sfd
    pub created : (sys.create dst (sys.open_source src files).1).0 ≡ some dfd
    pub looped :
        (g : F) × (copy_loop sys fuel writes sfd dfd
            (sys.create dst (sys.open_source src files).1).1
          ≡ some (true, g))
        × (sys.close dfd g).0 ≡ true

  closes :
      (sfd dfd : ℕ) (r : Bool × F) (g : F)
      → close_both sys sfd dfd r ≡ (true, g)
      → (h : F) × (r ≡ (true, h)) × (sys.close dfd h).0 ≡ true
  closes sfd dfd (true, h) g e = (h, refl, ap (λ x. x.0) e)
  closes sfd dfd (false, h) g e = absurd (cc (ap (λ x. x.0) e))

  pub copy_file-Made :
      (src dst : List ℕ) (files g : F)
      → copy_file sys fuel writes src dst files ≡ some (true, g)
      → Made src dst files
  unfolding copy_file
  copy_file-Made src dst files g e =
      let s = sys.open_source src files in
      let t = sys.create dst s.1 in
      elim (Option-cases s.0) [
        | inl e1 ↦ absurd (cc (rw (copy_file, e1) at e))
        | inr (sfd, e1) ↦ elim (Option-cases t.0) [
          | inl e2 ↦ absurd (cc (rw (copy_file, e1, e2) at e))
          | inr (dfd, e2) ↦ elim (Option-cases (copy_loop sys fuel writes sfd dfd t.1)) [
            | inl e3 ↦ absurd (cc (rw (copy_file, e1, e2, e3) at e))
            | inr (r, e3) ↦
                let (h, ended, closed) =
                  closes sfd dfd r g (cc (rw (copy_file, e1, e2, e3) at e)) in
                record {
                  sfd = sfd;
                  dfd = dfd;
                  opened = e1;
                  created = e2;
                  looped = (h, rw ended at e3, closed);
                }
          ]
        ]
      ]
