-- ===== src/Api/Table/Selection.antt =====
-- TS_SelectChannel, TS_CloseChannel and TS_LoadSetup beside their abstract versions.
use mathlib.Core.Path.{subst}
use technosoft_tml_motor.Prelude.{
  ℕ, zero, suc, ◌≡◌, refl, sym, ap, ◌∙◌, true, false, Option, none, some, List, if◌then◌else◌, ◌==◌,
  length, set, arith, Bool-cases, inl, inr, ==_iff,
}
use technosoft_tml_motor.Link.{Link}
use technosoft_tml_motor.Api.Act.{no_free_setup, fd_not_found}
use technosoft_tml_motor.Api.Table.{
  Globals, Setup, Slot, entry_at, find_free, find_fd, is_active, select_slot, close_slot,
  store_setup,
}
use technosoft_tml_motor.Api.Table.Slots.{find_fd-some}
use technosoft_tml_motor.Api.Table.Valid.{
  Active, select_slot-Valid, close_slot-Valid, store_setup-Valid,
}
use technosoft_tml_motor.Api.Table.Lookup.{
  Distinct, Alone, Of, chan_at-set, Distinct-set, Alone-used, Alone-unique, find_fd-none,
}
use technosoft_tml_motor.Api.Table.Room.{room-free}
use technosoft_tml_motor.Api.Table.Abstract.{View, view_select, view_close, view_load}
use technosoft_tml_motor.Api.Table.Filled.{
  filled, find_free-filled-none, find_free-filled-some, set-filled,
}
use technosoft_tml_motor.Api.Table.Simulation.{Shows, Agrees, Shows-error, in_use}

module _ (L : Link) where
  pub selected-Agrees :
      (fd : ℕ) (place : Option ℕ) (g : Globals L) (v : View L)
      → find_fd L fd g.channels ≡ place
      → Shows L g v
      → Agrees L (select_slot L fd place g) (view_select L fd (v.channels fd) v)
  unfolding select_slot
  selected-Agrees fd none g v found s =
      let unknown : v.channels fd ≡ none = sym (s.named fd) ∙ find_fd-none L fd g.channels found in
      subst (λ o. Agrees L (false, record g { error = fd_not_found fd }) (view_select L fd o v))
        (sym unknown) (refl, Shows-error L (fd_not_found fd) g v s)
  selected-Agrees fd (some i) g v found s =
      let (t, here, same) = find_fd-some L fd g.channels i found in
      let known : v.channels fd ≡ some t.chan =
        ap v.channels (sym same) ∙ in_use L i t g v here s in
      subst
        (λ o.
          Agrees L (true, record g { active = some i; active_fd = some fd }) (view_select L fd o v))
        (sym known)
        (
          refl,
          record {
            valid = select_slot-Valid L fd (some i) g found s.valid;
            distinct = s.distinct;
            named = s.named;
            same_active = refl;
            same_room = s.same_room;
            same_setups = s.same_setups;
          },
        )

  is_active-Active :
      (i : ℕ) (t : Slot L) (ss : List (Option (Slot L))) (active fd : Option ℕ)
      → Distinct L ss
      → entry_at ss i ≡ some t
      → Active L ss active fd
      → is_active L active i ≡ is_active L fd t.fd
  is_active-Active i t ss none fd d here a = rw a refl
  is_active-Active i t ss (some j) fd d here (u, there, e) = elim (Bool-cases (j == i)) [
    | inl same ↦
        let u_t : u ≡ t =
          ground (arith, sym there ∙ ap (entry_at ss) ((==_iff j i).0 same) ∙ here) in
        same
        ∙ sym
            (ap (λ o. is_active L o t.fd) e ∙ (==_iff u.fd t.fd).1 (ap (λ (x : Slot L). x.fd) u_t))
    | inr other ↦ elim (Bool-cases (u.fd == t.fd)) [
      | inl bad ↦
          let j_i : j ≡ i =
            Alone-unique L t.fd i j u ss (Alone-used L i t ss d here) there
              ((==_iff u.fd t.fd).0 bad) in
          absurd (ground (arith, j_i, other))
      | inr apart ↦ other ∙ sym (ap (λ o. is_active L o t.fd) e ∙ apart)
    ]
  ]

  pub closed-Shows :
      (fd : ℕ) (place : Option ℕ) (g : Globals L) (v : View L)
      → find_fd L fd g.channels ≡ place
      → Shows L g v
      → Shows L (close_slot L place g) (view_close L fd (v.channels fd) v)
  unfolding close_slot
  closed-Shows fd none g v found s =
      let unknown : v.channels fd ≡ none = sym (s.named fd) ∙ find_fd-none L fd g.channels found in
      subst (λ o. Shows L g (view_close L fd o v)) (sym unknown) s
  closed-Shows fd (some i) g v found s =
      let (t, here, same) = find_fd-some L fd g.channels i found in
      let known : v.channels fd ≡ some t.chan =
        ap v.channels (sym same) ∙ in_use L i t g v here s in
      let alone : Alone L fd g.channels i =
        subst (λ n. Alone L n g.channels i) same (Alone-used L i t g.channels s.distinct here) in
      let old : Of L fd (entry_at g.channels i) = rw here same in
      let active : is_active L g.active i ≡ is_active L v.active fd =
        is_active-Active i t g.channels g.active g.active_fd s.distinct here s.valid.active_in_use
        ∙ ap (λ o. is_active L o t.fd) s.same_active
        ∙ ap (is_active L v.active) same in
      subst (λ o. Shows L (close_slot L (some i) g) (view_close L fd o v)) (sym known)
        (record {
          valid = close_slot-Valid L (some i) g s.valid;
          distinct = Distinct-set L fd i none g.channels alone old tt s.distinct;
          named = λ f.
              chan_at-set L fd f i none g.channels alone old tt
              ∙ ap (λ c. if f == fd then none else c) (s.named f);
          same_active =
              ap (λ b. if b then none else g.active_fd) active
              ∙ ap (λ o. if is_active L v.active fd then none else o) s.same_active;
          same_room = room-free L i t g.channels here ∙ ap suc s.same_room;
          same_setups = s.same_setups;
        })

  pub loaded-Agrees :
      (x : Setup) (n : ℕ) (g : Globals L) (v : View L)
      → v.setup_room ≡ n
      → Shows L g v
      → Agrees L (store_setup L x (find_free g.setups) g) (view_load L x n v)
  unfolding store_setup
  loaded-Agrees x zero g v room_n s =
      let table : g.setups ≡ filled v.setups zero = s.same_setups ∙ ap (filled v.setups) room_n in
      let full : find_free g.setups ≡ none = ap find_free table ∙ find_free-filled-none v.setups in
      subst (λ o. Agrees L (store_setup L x o g) (none, v)) (sym full)
        (refl, Shows-error L no_free_setup g v s)
  loaded-Agrees x (suc n) g v room_n s =
      let table : g.setups ≡ filled v.setups (suc n) =
        s.same_setups ∙ ap (filled v.setups) room_n in
      let free : find_free g.setups ≡ some (length v.setups) =
        ap find_free table ∙ find_free-filled-some v.setups n in
      subst (λ o. Agrees L (store_setup L x o g) (view_load L x (suc n) v)) (sym free)
        (
          refl,
          record {
            valid = store_setup-Valid L x (some (length v.setups)) g s.valid;
            distinct = s.distinct;
            named = s.named;
            same_active = s.same_active;
            same_room = s.same_room;
            same_setups =
                ap (λ t. set t (length v.setups) (some x)) table ∙ set-filled v.setups n x;
          },
        )
