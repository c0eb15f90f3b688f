-- ===== src/Api/Table/Refines.antt =====
-- All calls on the tables beside those on the abstract view.
use mathlib.Core.Path.{subst}
use technosoft_tml_motor.Prelude.{
  ℕ, ◌≡◌, refl, sym, ap, ◌∙◌, Option, none, some, List, [], ◌∷◌, if◌then◌else◌, ◌==◌, take,
}
use technosoft_tml_motor.Prelude.Int.{pos, negsuc}
use technosoft_tml_motor.VarMap.{Name, new_map}
use technosoft_tml_motor.Link.{Link}
use technosoft_tml_motor.Api.Act.{Act, Fn, no_active_channel}
use technosoft_tml_motor.Api.Table.{
  Globals, Setup, Slot, entry_at, find_free, find_fd, opened, not_opened, is_some, initial,
  open_channel, select_channel, close_channel, load_setup, setup_at, merge_setup, setup_axis,
  run_in, run_at, call_on, call,
}
use technosoft_tml_motor.Api.Table.Valid.{Active, run_at-Valid}
use technosoft_tml_motor.Api.Table.Lookup.{Alone, Of, chan_at-set, Distinct-set, Alone-used}
use technosoft_tml_motor.Api.Table.Room.{room-keep}
use technosoft_tml_motor.Api.Table.Abstract.{
  View, empty, view_open, view_select, view_load, view_on, view_call, loaded_at, Request, opens,
  selects, closes, loads, sets_up, calls, Reply, selected, number, ended, value, with_reply,
  perform, promised, replies, promised_replies, New, AllNew,
}
use technosoft_tml_motor.Api.Table.Simulation.{
  Shows, initial-Shows, Agrees, Shows-error, opened-Agrees, refused-Agrees, in_use, setup_at-filled,
}
use technosoft_tml_motor.Api.Table.Selection.{selected-Agrees, closed-Shows, loaded-Agrees}

module _ (L : Link) where
  module _ {A : Type 0} (fn : Fn) (act : Act L A) where
    called_at :
        (i : ℕ) (t : Slot L) (g : Globals L) (v : View L)
        → g.active ≡ some i
        → entry_at g.channels i ≡ some t
        → Shows L g v
        → Agrees L (run_in L act i t g) (view_on L act t.fd (some t.chan) v)
    unfolding run_in call_on run_at
    called_at i t g v is here s =
        let moved : Slot L = record t { chan = (act t.chan).1 } in
        let alone : Alone L t.fd g.channels i = Alone-used L i t g.channels s.distinct here in
        let old : Of L t.fd (entry_at g.channels i) = rw here refl in
        (
          refl,
          record {
            valid = run_at-Valid L act i (some t) g here is s.valid;
            distinct = Distinct-set L t.fd i (some moved) g.channels alone old refl s.distinct;
            named = λ f.
                chan_at-set L t.fd f i (some moved) g.channels alone old refl
                ∙ ap (λ c. if f == t.fd then some moved.chan else c) (s.named f);
            same_active = s.same_active;
            same_room = room-keep L i t moved g.channels here ∙ s.same_room;
            same_setups = s.same_setups;
          },
        )

    called_on :
        (i : ℕ) (g : Globals L) (v : View L)
        → g.active ≡ some i
        → Shows L g v
        → Active L g.channels (some i) g.active_fd
        → Agrees L (run_at L act i (entry_at g.channels i) g) (view_call L act v.active v)
    unfolding run_at
    called_on i g v is s (t, here, noted) =
        let known : v.channels t.fd ≡ some t.chan = in_use L i t g v here s in
        let chosen : v.active ≡ some t.fd = sym s.same_active ∙ noted in
        subst (λ o. Agrees L (run_at L act i o g) (view_call L act v.active v)) (sym here)
          (subst (λ o. Agrees L (run_in L act i t g) (view_call L act o v)) (sym chosen)
            (subst (λ o. Agrees L (run_in L act i t g) (view_on L act t.fd o v)) (sym known)
              (called_at i t g v is here s)))

    called-Agrees :
        (o : Option ℕ) (g : Globals L) (v : View L)
        → g.active ≡ o
        → Shows L g v
        → Agrees L (call_on L fn act o g) (view_call L act v.active v)
    unfolding call_on
    called-Agrees none g v is s =
        let idle : v.active ≡ none =
          sym s.same_active
          ∙ subst (λ o. Active L g.channels o g.active_fd) is s.valid.active_in_use in
        subst
          (λ o. Agrees L (none, record g { error = no_active_channel fn }) (view_call L act o v))
          (sym idle) (refl, Shows-error L (no_active_channel fn) g v s)
    called-Agrees (some i) g v is s =
        called_on i g v is s
          (subst (λ o. Active L g.channels o g.active_fd) is s.valid.active_in_use)

  -- Whether any channel is active.
  is_some-Active :
      (ss : List (Option (Slot L))) (active fd : Option ℕ)
      → Active L ss active fd
      → is_some L active ≡ is_some L fd
  is_some-Active ss none fd a = rw a refl
  is_some-Active ss (some i) fd (t, here, a) = rw a refl

  reply-Agrees :
      {A B : Type 0} (f : B → Reply L A) (x : B × Globals L) (y : B × View L)
      → Agrees L x y
      → Agrees L (with_reply L f x) (with_reply L f y)
  reply-Agrees f x y (same, s) = (ap f same, s)

  module _ {A : Type 0} where
    perform-Agrees :
        (r : Request L A) (g : Globals L) (v : View L)
        → New L r v
        → Shows L g v
        → Agrees L (perform L r g) (promised L r v)
    unfolding perform promised open_channel select_channel close_channel load_setup setup_axis call
    perform-Agrees (opens (not_opened e)) g v new s =
        reply-Agrees number _ (none, v) (refused-Agrees L e (find_free g.channels) g v s)
    perform-Agrees (opens (opened fd ch)) g v new s =
        reply-Agrees number _ (view_open L fd ch v.room v)
          (opened-Agrees L fd ch (find_free g.channels) v.room g v refl refl new s)
    perform-Agrees (selects (negsuc n)) g v new s = (
      ap selected (
          is_some-Active g.channels g.active g.active_fd s.valid.active_in_use
          ∙ ap (is_some L) s.same_active),
      s,
    )
    perform-Agrees (selects (pos fd)) g v new s =
        reply-Agrees selected _ (view_select L fd (v.channels fd) v)
          (selected-Agrees L fd (find_fd L fd g.channels) g v refl s)
    perform-Agrees (closes fd) g v new s =
        (refl, closed-Shows L fd (find_fd L fd g.channels) g v refl s)
    perform-Agrees (loads load path) g v new s =
        let kept : Name = take 511 path in
        let x : Setup = record { path = kept; vars = load kept new_map } in
        reply-Agrees number _ (view_load L x v.setup_room v)
          (loaded-Agrees L x v.setup_room g v refl s)
    perform-Agrees (sets_up axis index) g v new s =
        let found : setup_at L g.setups index ≡ loaded_at L v.setups index =
          ap (λ t. setup_at L t index) s.same_setups
          ∙ setup_at-filled L v.setups v.setup_room index in
        subst
          (λ o.
            Agrees L
              (with_reply L {A = A} ended
                (call_on L Fn.setup_axis (merge_setup L index o) g.active g))
              (promised L (sets_up axis index) v))
          (sym found)
          (reply-Agrees ended _
            (view_call L (merge_setup L index (loaded_at L v.setups index)) v.active v)
            (called-Agrees Fn.setup_axis (merge_setup L index (loaded_at L v.setups index)) g.active
              g v refl s))
    perform-Agrees (calls fn act) g v new s =
        reply-Agrees value _ (view_call L act v.active v) (called-Agrees fn act g.active g v refl s)

    replies-Shows :
        (rs : List (Request L A)) (g : Globals L) (v : View L)
        → AllNew L rs v
        → Shows L g v
        → replies L rs g ≡ promised_replies L rs v
    unfolding replies promised_replies AllNew
    replies-Shows [] g v new s = refl
    replies-Shows (r ∷ rs) g v (first, later) s =
        let (same, shown) = perform-Agrees r g v first s in
        ap (λ a. a ∷ replies L rs (perform L r g).1) same
        ∙ ap (◌∷◌ (promised L r v).0)
            (replies-Shows rs (perform L r g).1 (promised L r v).1 later shown)

    -- Let calls be made from the start, closing by descriptor, with any results of the
    -- transport, but so that opening never gives a descriptor that still names an open channel.
    -- Then all their replies are those of the abstract view: at most 8 channels are named by
    -- descriptors, the last one opened or selected is active until it is closed, every call
    -- works on the active one alone, and the setups are a list of 16 at most that only grows.
    pub replies-promised_replies :
        (rs : List (Request L A))
        → AllNew L rs (empty L)
        → replies L rs (initial L) ≡ promised_replies L rs (empty L)
    replies-promised_replies rs new = replies-Shows rs (initial L) (empty L) new (initial-Shows L)
