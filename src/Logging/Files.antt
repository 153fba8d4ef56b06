-- ===== src/Logging/Files.antt =====
-- What the loggers use of the C library's streams. Which calls succeed, and the date that the clock
-- shows, are functions of the trail of calls, newest first. A date is a number; the file of a date
-- is the one named after it.
use pqnet.Common.{ℕ, Bool, List, ◌∷◌, if◌then◌else◌}
use pqnet.Kernel.{Level}

-- How a function of the loggers ends: with a value, at the end of the fuel, or in an fclose(3) or an
-- fprintf(3) on a stream that is not open.
pub data Result (A : Type 0) : Type 0 where
  ok : A → Result A
  spent closes_closed prints_closed : Result A

infixl 5 ◌>>=◌
abbrev pub ◌>>=◌ : {A B : Type 0} → Result A → (A → Result B) → Result B
ok a >>= f = f a
spent >>= f = spent
closes_closed >>= f = closes_closed
prints_closed >>= f = prints_closed

pub data Target : Type 0 where
  to_file console : Target

-- stdout, a stream that was closed, a null pointer, and the open file of a date
pub data Stream : Type 0 where
  out shut null : Stream
  file : ℕ → Stream

pub data Act : Type 0 where
  opened : ℕ → Act
  closing : Stream → Act
  line : Level → ℕ → Stream → Act

pub record Files : Type 0 where
  pub closes : List Act → Bool
  pub opens : List Act → ℕ → Bool
  pub today : List Act → ℕ

-- The fields of both loggers that say where a line goes. A message is a handle.
pub record Sink : Type 0 where
  pub level : Level
  pub target : Target
  pub currdate : ℕ
  pub lf : Stream
  pub trail : List Act

module _ (f : Files) (g : Sink) where
  -- `std::fclose(lf)`, with whether it returned 0.
  abbrev pub fclose : Stream → Result (Bool × Sink)
  fclose shut = closes_closed
  fclose null = closes_closed
  fclose s = ok (f.closes g.trail, record g { lf = shut; trail = closing s ∷ g.trail })

  -- `lf = std::fopen(…, "a")`
  unfoldable pub fopen : ℕ → Sink
  fopen date = record g {
    lf = if f.opens g.trail date then file date else null;
    trail = opened date ∷ g.trail;
  }

-- `std::fprintf(lf, …)`.
abbrev pub fprintf : Level → ℕ → Stream → Sink → Result Sink
fprintf l msg shut g = prints_closed
fprintf l msg null g = prints_closed
fprintf l msg s g = ok (record g { trail = line l msg s ∷ g.trail })
