-- ===== src/Channel/Open/Sockets.antt =====
-- Which sockets are open when `connectTcp` is done.
use technosoft_tml_motor.Prelude.{ℕ, List, [], ◌∷◌, ◌≡◌, refl, ap, ◌∙◌, Option, none, some, ==_iff}
use technosoft_tml_motor.Prelude.State.{State}
use technosoft_tml_motor.Channel.System.{Posix}
use technosoft_tml_motor.Channel.Defs.{Port, call}
use technosoft_tml_motor.Channel.Address.{Target, target, without_port, bad_port, parse_target}
use technosoft_tml_motor.Channel.Network.{
  Network, Connect, connected, in_progress, refused, Writable, writable, not_writable,
  select_failed, Descriptor, descriptor, no_descriptor, Resolved, resolved, not_resolved,
  after_open, remove,
}
use technosoft_tml_motor.Channel.Connect.{
  connect_waited, connect_result, connect_socket, settle, after_socket, connect_first,
  connect_error, connect_resolved, connect_target, connect_tcp,
}

-- A descriptor that was just opened is the one that closing removes.
pub remove_self : (fd : ℕ) (ds : List ℕ) → remove fd (fd ∷ ds) ≡ ds
remove_self fd ds = rw ((==_iff fd fd).1 refl)

module _ (P : Posix) (N : Network P) where
  open N use {Address, descriptors}

  connect_waited_keeps :
      (sock : ℕ) (x : Writable) (w : P.World)
      → descriptors (connect_waited P N sock x w).1 ≡ descriptors w
  unfolding connect_waited
  connect_waited_keeps sock writable w = N.so_error_keeps sock w
  connect_waited_keeps sock not_writable w = refl
  connect_waited_keeps sock (select_failed e) w = refl

  connect_result_keeps :
      (sock : ℕ) (c : Connect) (w : P.World)
      → descriptors (connect_result P N sock c w).1 ≡ descriptors w
  unfolding connect_result
  connect_result_keeps sock connected w = refl
  connect_result_keeps sock (refused e) w = refl
  connect_result_keeps sock in_progress w =
      let (x, w') = N.select_write sock w in
      connect_waited_keeps sock x w' ∙ N.select_write_keeps sock w

  connect_socket_keeps :
      (sock : ℕ) (a : Address) (w : P.World)
      → descriptors (connect_socket P N sock a w).1 ≡ descriptors w
  unfolding connect_socket
  connect_socket_keeps sock a w =
      let w₁ : P.World = N.nonblocking sock w in
      let (c, w₂) = N.connect sock a w₁ in
      connect_result_keeps sock c w₂ ∙ N.connect_keeps sock a w₁ ∙ N.nonblocking_keeps sock w

  -- The open descriptors before, and the one that the computation gives.
  abbrev Leaves : State P.World Descriptor → List ℕ → P.World → Type 0
  Leaves m ds w = descriptors (m w).1 ≡ after_open ds (m w).0

  settle-Leaves :
      (again : ℕ → State P.World Descriptor) (sock : ℕ) (r : Option ℕ) (ds : List ℕ) (w : P.World)
      → ((e : ℕ) (w : P.World) → Leaves (again e) (descriptors w) w)
      → descriptors w ≡ sock ∷ ds
      → Leaves (settle P N again sock r) ds w
  unfolding settle
  settle-Leaves again sock none ds w h open_ =
      N.tcp_nodelay_keeps sock (N.blocking sock w) ∙ N.blocking_keeps sock w ∙ open_
  settle-Leaves again sock (some e) ds w h open_ =
      let shut : descriptors (N.close sock w) ≡ ds =
        N.close_descriptors sock w ∙ ap (remove sock) open_ ∙ remove_self sock ds in
      h e (N.close sock w) ∙ ap (λ t. after_open t (again e (N.close sock w)).0) shut

  after_socket-Leaves :
      (again : ℕ → State P.World Descriptor) (a : Address) (s : Descriptor) (ds : List ℕ)
      (w : P.World)
      → ((e : ℕ) (w : P.World) → Leaves (again e) (descriptors w) w)
      → descriptors w ≡ after_open ds s
      → Leaves (after_socket P N again a s) ds w
  unfolding after_socket
  after_socket-Leaves again a (no_descriptor e) ds w h same =
      h e w ∙ ap (λ t. after_open t (again e w).0) same
  after_socket-Leaves again a (descriptor sock) ds w h open_ =
      let (r, w') = connect_socket P N sock a w in
      settle-Leaves again sock r ds w' h (connect_socket_keeps sock a w ∙ open_)

  -- Of the sockets that the loop over the addresses opens, it leaves at most the connected one.
  connect_first-Leaves :
      (as_ : List Address) (last : ℕ) (w : P.World)
      → Leaves (connect_first P N as_ last) (descriptors w) w
  unfolding connect_first
  connect_first-Leaves [] last w = refl
  connect_first-Leaves (a ∷ as_) last w =
      let (s, w') = N.socket a w in
      after_socket-Leaves (connect_first P N as_) a s (descriptors w) w' (connect_first-Leaves as_)
        (N.socket_descriptors a w)

  abbrev pub with_fd : Option ℕ → List ℕ → List ℕ
  with_fd none ds = ds
  with_fd (some fd) ds = fd ∷ ds

  abbrev pub Gives : State (Port P) (Option ℕ) → Type 0
  Gives m = (p : Port P) → descriptors (m p).1.world ≡ with_fd (m p).0 (descriptors p.world)

  connect_error_gives :
      (path : List ℕ) (s : Descriptor) (p : Port P) (ds : List ℕ)
      → descriptors p.world ≡ after_open ds s
      → descriptors (connect_error P N path s p).1.world ≡ with_fd (connect_error P N path s p).0 ds
  connect_error_gives path (descriptor sock) p ds h = h
  connect_error_gives path (no_descriptor e) p ds h = h

  connect_resolved-Gives :
      (path host : List ℕ) (r : Resolved Address) → Gives (connect_resolved P N path host r)
  unfolding connect_resolved
  connect_resolved-Gives path host (not_resolved e) p = refl
  connect_resolved-Gives path host (resolved as_) p =
      let (s, q) = call P (connect_first P N as_ 0) p in
      connect_error_gives path s q (descriptors p.world) (connect_first-Leaves as_ 0 p.world)

  connect_target-Gives : (path : List ℕ) (t : Target) → Gives (connect_target P N path t)
  unfolding connect_target
  connect_target-Gives path without_port p = refl
  connect_target-Gives path bad_port p = refl
  connect_target-Gives path (target host port) p =
      let (r, q) = call P (N.getaddrinfo host port) p in
      connect_resolved-Gives path host r q
      ∙ ap (with_fd (connect_resolved P N path host r q).0) (N.getaddrinfo_keeps host port p.world)

  pub connect_tcp-Gives : (path : List ℕ) → Gives (connect_tcp P N path)
  unfolding connect_tcp
  connect_tcp-Gives path = connect_target-Gives path (parse_target path)
