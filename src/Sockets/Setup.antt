-- ===== src/Sockets/Setup.antt =====
-- The three options that TcpServer::init and TcpClient::init set on their socket.
use pqnet.Common.{ℕ, suc, ◌≤◌, ◌≡◌, refl, ◌∙◌, Bool, true, false, [], ◌∷◌, arith, not, ◌==◌}
use pqnet.Kernel.{History, error, log}
use pqnet.Sockets.Api.{minus_one, Api, Documented}
use pqnet.Sockets.Options.{set_non_block, set_reuse_addr, set_reuse_port}
use pqnet.Sockets.Setting.{non_block, reuse_addr, reuse_port, test, set-test}

-- `if (!ok) { ERROR(std::strerror(errno)); }`
abbrev pub report : Bool → History → History
report true h = h
report false h = log error ∷ h

-- `if (… == -1) { ERROR(…); }`
abbrev pub done : ℕ → Bool
done rc = not (rc == minus_one)

unfoldable pub configure : {S : Type 0} → Api S → ℕ → History × S → History × S
configure api fd (h, s) =
    let (a, s1) = set_non_block api fd true s in
    let (b, s2) = set_reuse_addr api fd true s1 in
    let (c, s3) = set_reuse_port api fd true s2 in (report c (report b (report a h)), s3)

-- The errors logged.
unfoldable pub errors : History → ℕ
errors [] = 0
errors (log error ∷ h) = suc (errors h)
errors (_ ∷ h) = errors h

pub errors_grow : (b : Bool) (h : History) → errors h ≤ errors (report b h)
unfolding errors
errors_grow true h = omega arith
errors_grow false h = omega arith

pub silent : (b : Bool) (h : History) → errors (report b h) ≤ errors h → b ≡ true
unfolding errors
silent true h e = refl
silent false h e = absurd (omega arith)

module _ {S : Type 0} (api : Api S) where
  -- All three are on.
  abbrev pub Configured : ℕ → S → Type 0
  Configured fd s =
      ((test api non_block fd s).0 ≡ 1)
      × ((test api reuse_addr fd s).0 ≡ 1)
      × ((test api reuse_port fd s).0 ≡ 1)

  pub configure_grows :
      (fd : ℕ) (h : History) (s : S) → errors h ≤ errors (configure api fd (h, s)).0
  unfolding configure
  configure_grows fd h s =
      let r1 = set_non_block api fd true s in
      let r2 = set_reuse_addr api fd true r1.1 in
      let h1 = report r1.0 h in
      let h2 = report r2.0 h1 in
      omega (
        arith,
        errors_grow r1.0 h,
        errors_grow r2.0 h1,
        errors_grow (set_reuse_port api fd true r2.1).0 h2,
      )

  pub configure_lem :
      Documented api
      → (fd : ℕ) (h : History) (s : S) → errors (configure api fd (h, s)).0 ≤ errors h
      → Configured fd (configure api fd (h, s)).1
  unfolding configure
  configure_lem d fd h s e =
      let r1 = set_non_block api fd true s in
      let r2 = set_reuse_addr api fd true r1.1 in
      let r3 = set_reuse_port api fd true r2.1 in
      let h1 = report r1.0 h in
      let h2 = report r2.0 h1 in
      let g1 = errors_grow r1.0 h in
      let g2 = errors_grow r2.0 h1 in
      let g3 = errors_grow r3.0 h2 in
      let e1 = silent r1.0 h (omega (arith, e)) in
      let e2 = silent r2.0 h1 (omega (arith, e)) in
      let e3 = silent r3.0 h2 (omega (arith, e)) in
      let (a1, b1) = set-test api d non_block fd true s e1 in
      let (a2, b2) = set-test api d reuse_addr fd true r1.1 e2 in
      let (a3, b3) = set-test api d reuse_port fd true r2.1 e3 in
      (b3 non_block (λ q. cc) ∙ b2 non_block (λ q. cc) ∙ a1, b3 reuse_addr (λ q. cc) ∙ a2, a3)
