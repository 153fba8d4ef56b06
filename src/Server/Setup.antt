-- ===== src/Server/Setup.antt =====
-- `TcpServer::init`, over the socket API.
use pqnet.Common.{ℕ, ◌≤◌, ◌≡◌, ◌≢◌, refl, ◌∙◌, true, some, ◌∷◌, arith}
use pqnet.Kernel.{Kernel, History, poll_mod, poll_add, log, debug}
use pqnet.Server.Defs.{Server, listen_on}
use pqnet.Trigger.{set_epfd, set_fd, add_to_loop, like_reading}
use pqnet.Sockets.Address.{SockAddr}
use pqnet.Sockets.Api.{minus_one, Api, Alike, Documented, Passive}
use pqnet.Sockets.Options.{new_socket}
use pqnet.Sockets.Setting.{non_block, reuse_addr, reuse_port, test-Alike}
use pqnet.Sockets.Setup.{
  report, done, configure, errors, errors_grow, silent, Configured, configure_lem, configure_grows,
}

abbrev backlog : ℕ
backlog = 16

not_done : (rc : ℕ) → rc ≡ minus_one → done rc ≢ true
not_done rc e h = ground (arith, e, h)

module _ {S : Type 0} (k : Kernel) (api : Api S) where
  unfoldable pub init : SockAddr → Server × S → Server × S
  init addr (server, s) =
      let (listenfd, s1) = new_socket api s in
      let (h2, s2) = configure api listenfd (report (done listenfd) server.history, s1) in
      let (rc3, s3) = api.bind listenfd addr s2 in
      let (rc4, s4) = api.listen listenfd backlog s3 in
      let h4 = report (done rc4) (report (done rc3) h2) in
      (listen_on k listenfd (record server { history = h4 }), s4)

  -- Without an error, the trigger is added to the leader's loop and reads there.
  listen_on_lem :
      (fd : ℕ) (server : Server)
      → errors (listen_on k fd server).history ≤ errors server.history
      → let s' = listen_on k fd server in
        let h = server.history in
        let t = s'.listen_trigger in
        (t.fd ≡ fd)
        × (s'.history
            ≡ poll_mod server.leader fd t.events
              ∷ poll_add server.leader fd server.listen_trigger.events
              ∷ log debug
              ∷ h)
        × (t.events.reading ≡ true)
  unfolding listen_on like_reading add_to_loop set_fd set_epfd errors
  listen_on_lem fd server e = (refl, ground (arith, e), refl)

  errors-listen_on :
      (fd : ℕ) (server : Server) → errors server.history ≤ errors (listen_on k fd server).history
  unfolding listen_on like_reading add_to_loop set_fd set_epfd errors
  errors-listen_on fd server = ground arith

  -- Where the kernel does as documented and init logs no error: the server's trigger stands on the
  -- descriptor that socket(2) gave; it is bound to the address and listens, does not block, and has the
  -- reuse of its address and port on; and the last that init does is to add it to the epoll set of the
  -- leader's loop and to ask there for reading.
  pub init-Configured :
      Documented api
      → (p : Passive api) (addr : SockAddr) (server : Server) (s : S)
      → errors (init addr (server, s)).0.history ≤ errors server.history
      → let fd = (api.socket s).0 in
        let t = (init addr (server, s)).0.listen_trigger in
        let s' = (init addr (server, s)).1 in
        (t.fd ≡ fd)
        × (fd ≢ minus_one)
        × (p.bound fd s' ≡ some addr)
        × (p.listens fd s' ≡ true)
        × Configured api fd s'
        × (t.events.reading ≡ true)
        × (h : History) × ((init addr (server, s)).0.history
            ≡ poll_mod server.leader fd t.events
              ∷ poll_add server.leader fd server.listen_trigger.events
              ∷ h)
  unfolding init new_socket
  init-Configured d p addr server s e =
      let (fd, s1) = new_socket api s in
      let h1 = report (done fd) server.history in
      let (h2, s2) = configure api fd (h1, s1) in
      let (rc3, s3) = api.bind fd addr s2 in
      let (rc4, s4) = api.listen fd backlog s3 in
      let h3 = report (done rc3) h2 in
      let h4 = report (done rc4) h3 in
      let server4 = record server { history = h4 } in
      let g = errors-listen_on fd server4 in
      let g1 = errors_grow (done fd) server.history in
      let g2 = configure_grows api fd h1 s1 in
      let g3 = errors_grow (done rc3) h2 in
      let g4 = errors_grow (done rc4) h3 in
      let (on, history, reading) = listen_on_lem fd server4 (omega (arith, e)) in
      let opened = silent (done fd) server.history (omega (arith, e)) in
      let named = silent (done rc3) h2 (omega (arith, e)) in
      let heard = silent (done rc4) h3 (omega (arith, e)) in
      let c = configure_lem api d fd h1 s1 (omega (arith, e)) in
      let a : Alike api fd s4 s2 =
        let (x, y) = d.listen_apart fd backlog s3 in
        let (u, v) = d.bind_apart fd addr s2 in (x ∙ u, λ o n. y o n ∙ v o n) in
      let b : Configured api fd s4 = (
        test-Alike api non_block fd s4 s2 a ∙ c.0,
        test-Alike api reuse_addr fd s4 s2 a ∙ c.1,
        test-Alike api reuse_port fd s4 s2 a ∙ c.2,
      ) in
      (
        on,
        (λ n. not_done fd n opened),
        p.listen_bound fd backlog s3 ∙ p.bind_binds fd addr s2 (λ n. not_done rc3 n named),
        p.listen_listens fd backlog s3 (λ n. not_done rc4 n heard),
        b,
        reading,
        log debug ∷ h4,
        history,
      )
