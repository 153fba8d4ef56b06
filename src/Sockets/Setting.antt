-- ===== src/Sockets/Setting.antt =====
-- What is set is what is tested: the setters and the tests of socket.cpp, pair by pair.
use pqnet.Common.{
  if◌then◌else◌, ℕ, ◌≤◌, ◌≡◌, ◌≢◌, ◌⊎◌, inl, inr, refl, sym, ap, ◌∙◌, Bool, true, false, ◌==◌,
  Bool-cases, arith,
}
use pqnet.Sockets.Api.{
  minus_one, Opt, so_reuseaddr, so_reuseport, so_keepalive, tcp_nodelay, has_nonblock, Api, Alike,
  Documented,
}
use pqnet.Sockets.Options.{
  of_flag, with_nonblock, is_non_block, option_of, is_reuse_addr, is_reuse_port, is_no_delay,
  is_keep_alive, succeeds, set_non_block, set_reuse_addr, set_reuse_port, set_no_delay,
  set_keep_alive,
}

-- The five pairs of a setter and a test.
pub data Setting : Type 0 where
  non_block reuse_addr reuse_port no_delay keep_alive : Setting

of_flag_le : (flag : Bool) → of_flag flag ≤ 1
of_flag_le true = omega arith
of_flag_le false = omega arith

-- What a test gives depends on the kernel's answer alone.
answer_of : ℕ × ℕ → ℕ
answer_of (rc, optval) = if rc == minus_one then minus_one else optval

flags_answer : ℕ → ℕ
flags_answer flags = if flags == minus_one then minus_one else if has_nonblock flags then 1 else 0

flags_answer_lem :
    (flag : Bool) (flags now : ℕ)
    → now ≢ minus_one
    → has_nonblock now ≡ has_nonblock (with_nonblock flag flags)
    → flags_answer now ≡ of_flag flag
unfolding flags_answer
flags_answer_lem true flags now n e =
    let b : has_nonblock (with_nonblock true flags) ≡ true = ground arith in
    ground (arith, n, e ∙ b)
flags_answer_lem false flags now n e =
    let b : has_nonblock (with_nonblock false flags) ≡ false = ground arith in
    ground (arith, n, e ∙ b)

abbrev Avoids : Opt → Setting → Type 0
Avoids o non_block = Unit
Avoids o reuse_addr = o ≢ so_reuseaddr
Avoids o reuse_port = o ≢ so_reuseport
Avoids o no_delay = o ≢ tcp_nodelay
Avoids o keep_alive = o ≢ so_keepalive

reuse_addr-Avoids : (y : Setting) → reuse_addr ≢ y → Avoids so_reuseaddr y
reuse_addr-Avoids non_block n = tt
reuse_addr-Avoids reuse_addr n = absurd (n refl)
reuse_addr-Avoids reuse_port n = λ e. cc
reuse_addr-Avoids no_delay n = λ e. cc
reuse_addr-Avoids keep_alive n = λ e. cc

reuse_port-Avoids : (y : Setting) → reuse_port ≢ y → Avoids so_reuseport y
reuse_port-Avoids non_block n = tt
reuse_port-Avoids reuse_addr n = λ e. cc
reuse_port-Avoids reuse_port n = absurd (n refl)
reuse_port-Avoids no_delay n = λ e. cc
reuse_port-Avoids keep_alive n = λ e. cc

no_delay-Avoids : (y : Setting) → no_delay ≢ y → Avoids tcp_nodelay y
no_delay-Avoids non_block n = tt
no_delay-Avoids reuse_addr n = λ e. cc
no_delay-Avoids reuse_port n = λ e. cc
no_delay-Avoids no_delay n = absurd (n refl)
no_delay-Avoids keep_alive n = λ e. cc

keep_alive-Avoids : (y : Setting) → keep_alive ≢ y → Avoids so_keepalive y
keep_alive-Avoids non_block n = tt
keep_alive-Avoids reuse_addr n = λ e. cc
keep_alive-Avoids reuse_port n = λ e. cc
keep_alive-Avoids no_delay n = λ e. cc
keep_alive-Avoids keep_alive n = absurd (n refl)

module _ {S : Type 0} (api : Api S) where
  abbrev pub set : Setting → ℕ → Bool → S → Bool × S
  set non_block = set_non_block api
  set reuse_addr = set_reuse_addr api
  set reuse_port = set_reuse_port api
  set no_delay = set_no_delay api
  set keep_alive = set_keep_alive api

  abbrev pub test : Setting → ℕ → S → ℕ × S
  test non_block = is_non_block api
  test reuse_addr = is_reuse_addr api
  test reuse_port = is_reuse_port api
  test no_delay = is_no_delay api
  test keep_alive = is_keep_alive api

  succeeds_state : (a : ℕ × S) → (succeeds api a).1 ≡ a.1
  succeeds_state (rc, s) = ground arith

  succeeds_ok : (a : ℕ × S) → (succeeds api a).0 ≡ true → a.0 ≢ minus_one
  succeeds_ok (rc, s) h = ground arith

  option_lem :
      (o : Opt) (fd : ℕ) (s : S) → (option_of api o fd s).0 ≡ answer_of (api.getsockopt fd o s).0
  unfolding answer_of
  option_lem o fd s = elim (Bool-cases ((api.getsockopt fd o s).0.0 == minus_one)) [
    | inl e ↦ rw e refl
    | inr e ↦ rw e refl
  ]

  option_same :
      (o : Opt) (fd : ℕ) (s t : S)
      → (api.getsockopt fd o s).0 ≡ (api.getsockopt fd o t).0
      → (option_of api o fd s).0 ≡ (option_of api o fd t).0
  option_same o fd s t e = option_lem o fd s ∙ ap answer_of e ∙ sym (option_lem o fd t)

  non_block_lem : (fd : ℕ) (s : S) → (is_non_block api fd s).0 ≡ flags_answer (api.get_flags fd s)
  unfolding is_non_block flags_answer
  non_block_lem fd s = elim (Bool-cases (api.get_flags fd s == minus_one)) [
    | inl e ↦ rw e refl
    | inr e ↦ rw e (elim (Bool-cases (has_nonblock (api.get_flags fd s))) [
      | inl b ↦ rw b refl
      | inr b ↦ rw b refl
    ])
  ]

  -- States with the same flags and options pass the same tests.
  pub test-Alike :
      (x : Setting) (fd : ℕ) (s t : S) → Alike api fd s t → (test x fd s).0 ≡ (test x fd t).0
  unfolding is_reuse_addr is_reuse_port is_no_delay is_keep_alive
  test-Alike non_block fd s t (f, o) =
      non_block_lem fd s ∙ ap flags_answer f ∙ sym (non_block_lem fd t)
  test-Alike reuse_addr fd s t (f, o) = option_same so_reuseaddr fd s t (o so_reuseaddr (λ e. cc))
  test-Alike reuse_port fd s t (f, o) = option_same so_reuseport fd s t (o so_reuseport (λ e. cc))
  test-Alike no_delay fd s t (f, o) = option_same tcp_nodelay fd s t (o tcp_nodelay (λ e. cc))
  test-Alike keep_alive fd s t (f, o) = option_same so_keepalive fd s t (o so_keepalive (λ e. cc))

  set_non_block_cases :
      (fd : ℕ) (flag : Bool) (s : S)
      → (set_non_block api fd flag s ≡ (false, s))
        ⊎ (set_non_block api fd flag s
            ≡ succeeds api (api.set_flags fd (with_nonblock flag (api.get_flags fd s)) s))
  unfolding set_non_block
  set_non_block_cases fd flag s = elim (Bool-cases (api.get_flags fd s == minus_one)) [
    | inl e ↦ inl (rw e refl)
    | inr e ↦ inr (rw e refl)
  ]

  module _ (d : Documented api) where
    -- A Boolean option, once set.
    option_set :
        (o : Opt) (fd : ℕ) (flag : Bool) (s : S)
        → (succeeds api (api.setsockopt fd o (of_flag flag) s)).0 ≡ true
        → (option_of api o fd (succeeds api (api.setsockopt fd o (of_flag flag) s)).1).0
          ≡ of_flag flag
    unfolding answer_of
    option_set o fd flag s h =
        let a = api.setsockopt fd o (of_flag flag) s in
        let e = d.opt_set fd (of_flag flag) o s (of_flag_le flag) (succeeds_ok a h) in
        rw (succeeds_state a) (option_lem o fd a.1 ∙ ap answer_of e)

    option_apart :
        (o p : Opt) (fd : ℕ) (flag : Bool) (s : S)
        → o ≢ p
        → (option_of api p fd (succeeds api (api.setsockopt fd o (of_flag flag) s)).1).0
          ≡ (option_of api p fd s).0
    option_apart o p fd flag s n =
        let a = api.setsockopt fd o (of_flag flag) s in
        rw (succeeds_state a) (option_same p fd a.1 s (d.opt_apart fd (of_flag flag) o p s n))

    flags_apart :
        (o : Opt) (fd : ℕ) (flag : Bool) (s : S)
        → (is_non_block api fd (succeeds api (api.setsockopt fd o (of_flag flag) s)).1).0
          ≡ (is_non_block api fd s).0
    flags_apart o fd flag s =
        let a = api.setsockopt fd o (of_flag flag) s in
        rw (succeeds_state a) (
          non_block_lem fd a.1
          ∙ ap flags_answer (d.opt-flags fd (of_flag flag) o s)
          ∙ sym (non_block_lem fd s))

    non_block_set :
        (fd : ℕ) (flag : Bool) (s : S)
        → (set_non_block api fd flag s).0 ≡ true
        → (is_non_block api fd (set_non_block api fd flag s).1).0 ≡ of_flag flag
    non_block_set fd flag s h = elim (set_non_block_cases fd flag s) [
      | inl e ↦ let c : true ≡ false = sym h ∙ ap (λ p. p.0) e in absurd (cc)
      | inr e ↦
          let a = api.set_flags fd (with_nonblock flag (api.get_flags fd s)) s in
          let (n, b) =
            d.flags_set fd (with_nonblock flag (api.get_flags fd s)) s
              (succeeds_ok a (sym (ap (λ p. p.0) e) ∙ h)) in
          ap (λ p. (is_non_block api fd p.1).0) e
          ∙ ap (λ t. (is_non_block api fd t).0) (succeeds_state a)
          ∙ non_block_lem fd a.1
          ∙ flags_answer_lem flag (api.get_flags fd s) (api.get_flags fd a.1) n b
    ]

    non_block_apart :
        (p : Opt) (fd : ℕ) (flag : Bool) (s : S)
        → (option_of api p fd (set_non_block api fd flag s).1).0 ≡ (option_of api p fd s).0
    non_block_apart p fd flag s = elim (set_non_block_cases fd flag s) [
      | inl e ↦ ap (λ q. (option_of api p fd q.1).0) e
      | inr e ↦
          let flags = with_nonblock flag (api.get_flags fd s) in
          let a = api.set_flags fd flags s in
          ap (λ q. (option_of api p fd q.1).0) e
          ∙ ap (λ t. (option_of api p fd t).0) (succeeds_state a)
          ∙ option_same p fd a.1 s (d.flags_apart fd flags p s)
    ]

    apart_non_block :
        (y : Setting) (fd : ℕ) (flag : Bool) (s : S)
        → non_block ≢ y
        → (test y fd (set_non_block api fd flag s).1).0 ≡ (test y fd s).0
    unfolding is_reuse_addr is_reuse_port is_no_delay is_keep_alive
    apart_non_block non_block fd flag s n = absurd (n refl)
    apart_non_block reuse_addr fd flag s n = non_block_apart so_reuseaddr fd flag s
    apart_non_block reuse_port fd flag s n = non_block_apart so_reuseport fd flag s
    apart_non_block no_delay fd flag s n = non_block_apart tcp_nodelay fd flag s
    apart_non_block keep_alive fd flag s n = non_block_apart so_keepalive fd flag s

    -- Setting an option leaves the tests that do not read it.
    apart :
        (o : Opt) (y : Setting) (fd : ℕ) (flag : Bool) (s : S)
        → Avoids o y
        → (test y fd (succeeds api (api.setsockopt fd o (of_flag flag) s)).1).0 ≡ (test y fd s).0
    unfolding is_reuse_addr is_reuse_port is_no_delay is_keep_alive
    apart o non_block fd flag s n = flags_apart o fd flag s
    apart o reuse_addr fd flag s n = option_apart o so_reuseaddr fd flag s n
    apart o reuse_port fd flag s n = option_apart o so_reuseport fd flag s n
    apart o no_delay fd flag s n = option_apart o tcp_nodelay fd flag s n
    apart o keep_alive fd flag s n = option_apart o so_keepalive fd flag s n

    -- Where the kernel does as documented, a setter that returns true has set what its test then gives,
    -- and the other four tests give what they gave before.
    pub set-test :
        (x : Setting) (fd : ℕ) (flag : Bool) (s : S)
        → (set x fd flag s).0 ≡ true
        → ((test x fd (set x fd flag s).1).0 ≡ of_flag flag)
          × ((y : Setting) → x ≢ y → (test y fd (set x fd flag s).1).0 ≡ (test y fd s).0)
    unfolding set_reuse_addr set_reuse_port set_no_delay set_keep_alive is_reuse_addr is_reuse_port
        is_no_delay is_keep_alive
    set-test non_block fd flag s h =
        (non_block_set fd flag s h, λ y n. apart_non_block y fd flag s n)
    set-test reuse_addr fd flag s h = (
      option_set so_reuseaddr fd flag s h,
      λ y n. apart so_reuseaddr y fd flag s (reuse_addr-Avoids y n),
    )
    set-test reuse_port fd flag s h = (
      option_set so_reuseport fd flag s h,
      λ y n. apart so_reuseport y fd flag s (reuse_port-Avoids y n),
    )
    set-test no_delay fd flag s h = (
      option_set tcp_nodelay fd flag s h,
      λ y n. apart tcp_nodelay y fd flag s (no_delay-Avoids y n),
    )
    set-test keep_alive fd flag s h = (
      option_set so_keepalive fd flag s h,
      λ y n. apart so_keepalive y fd flag s (keep_alive-Avoids y n),
    )
