-- ===== src/Linq/Descriptor.antt =====
-- The functions of src/linq.c that take links off keep the descriptor of the directory.
use klunok.Prelude.{
  Option-cases, ℕ, zero, suc, ◌+◌, Option, none, some, Text, ◌≡◌, refl, ◌∙◌, Bool-cases, inl, inr,
  ltb, ◌==◌,
}
use klunok.Trace.{Host, ok, tnull_malloc}
use klunok.Buffer.{Buffer, View, concat_size}
use klunok.Set.{get_count}
use klunok.System.{System, tneg_ask}
use klunok.Linq.{
  Linq, text_of, due_at, build, pop_head, unlink_head, drop_link, forget, stat_head, link_or,
  judge_head, view_head, take_head, await_head, get_head_from, get_head, read_entry, Answered,
}

module _ (sys : System) where
  dirfd-forget :
      (v : Option View × Host) (l : Linq) (s : sys.State) → (forget sys v l s).0.dirfd ≡ l.dirfd
  dirfd-forget (none, h) l s = refl
  dirfd-forget (some v, h) l s = refl

  dirfd-drop_link :
      (t : Option Text) (l : Linq) (r : sys.State × Host) → (drop_link sys t l r).0.dirfd ≡ l.dirfd
  unfolding drop_link
  dirfd-drop_link none l (s, h) = refl
  dirfd-drop_link (some t) l (s, h) = elim (Bool-cases (ok h)) [
    | inl e ↦ rw e (dirfd-forget _ l s)
    | inr e ↦ rw e refl
  ]

  pub dirfd-pop_head :
      (l : Linq) (s : sys.State) (h : Host) → (pop_head sys l s h).0.dirfd ≡ l.dirfd
  unfolding pop_head unlink_head
  dirfd-pop_head l s h = elim (Bool-cases (ok h)) [
    | inr e ↦ rw e refl
    | inl e ↦ rw e (dirfd-drop_link _ (record l { head_mtime = none }) _)
  ]

  dirfd-stat_head : (l : Linq) (s : sys.State) (h : Host) → (stat_head sys l s h).1.dirfd ≡ l.dirfd
  unfolding stat_head
  dirfd-stat_head l s h =
      let (link, h1) = build (concat_size l.head_index) h in
      elim (Option-cases l.head_mtime) [
        | inr (m, e) ↦ rw e refl
        | inl e ↦ elim (Option-cases (tneg_ask sys (sys.mtime_at l.dirfd (text_of link)) s h1).0) [
          | inr (m, asked) ↦ rw (stat_head, e, asked) refl
          | inl asked ↦ rw (stat_head, e, asked) refl
        ]
      ]

  module _ (fd : ℕ) where
    abbrev Keeps : (Linq → sys.State → Host → Answered sys) → Type 0
    Keeps again = (l : Linq) (s : sys.State) (h : Host) → l.dirfd ≡ fd → (again l s h).1.dirfd ≡ fd

    module _ (again : Linq → sys.State → Host → Answered sys) (keeps : Keeps again) (l : Linq)
        (same : l.dirfd ≡ fd) (s : sys.State) where
      dirfd-judge_head :
          (t : Text) (v : Option View × Host) → (judge_head sys again t v l s).1.dirfd ≡ fd
      unfolding judge_head
      dirfd-judge_head t (none, h) = same
      dirfd-judge_head t (some v, h) = elim (Bool-cases (ltb 1 (get_count v l.set))) [
        | inl e ↦ rw e (
            keeps (pop_head sys l s h).0 (pop_head sys l s h).1 (pop_head sys l s h).2
              (dirfd-pop_head l s h ∙ same))
        | inr e ↦ rw e same
      ]

      dirfd-view_head : (t : Option Text × Host) → (view_head sys again t l s).1.dirfd ≡ fd
      unfolding view_head
      dirfd-view_head (none, h) = same
      dirfd-view_head (some t, h) = dirfd-judge_head t _

      dirfd-take_head : (link : Option Buffer × Host) → (take_head sys again link l s).1.dirfd ≡ fd
      unfolding take_head
      dirfd-take_head (link, h) = elim (Bool-cases (ok h)) [
        | inl e ↦ rw e (dirfd-view_head (read_entry sys (text_of link) l s h))
        | inr e ↦ rw e same
      ]

      dirfd-await_head :
          (made : Option Buffer) (h : Host) → (await_head sys again (made, l, h) s).1.dirfd ≡ fd
      unfolding await_head
      dirfd-await_head made h = elim (Bool-cases (ok h)) [
        | inr e ↦ rw e same
        | inl e ↦ elim (Bool-cases (ltb (sys.time s) (due_at l))) [
          | inl early ↦ rw (e, early) same
          | inr due ↦ rw (e, due) (dirfd-take_head (link_or sys made l h))
        ]
      ]

    dirfd-get_head_from : (fuel : ℕ) → Keeps (get_head_from sys fuel)
    unfolding get_head_from
    dirfd-get_head_from zero l s h same = same
    dirfd-get_head_from (suc fuel) l s h same =
        let h' = (tnull_malloc h).1 in
        let st = stat_head sys l s h' in
        elim (Bool-cases (ok h')) [
          | inr e ↦ rw e same
          | inl e ↦ elim (Bool-cases (l.size == 0)) [
            | inl empty ↦ rw (e, empty) same
            | inr more ↦
                rw (e, more)
                  (dirfd-await_head (get_head_from sys fuel) (dirfd-get_head_from fuel) st.1
                    (dirfd-stat_head l s h' ∙ same) s st.0 st.2)
          ]
        ]

  pub dirfd-get_head :
      (l : Linq) (s : sys.State) (h : Host) → (get_head sys l s h).1.dirfd ≡ l.dirfd
  unfolding get_head
  dirfd-get_head l s h = dirfd-get_head_from l.dirfd (l.size + 1) l s h refl
