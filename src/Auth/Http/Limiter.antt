-- ===== src/Auth/Http/Limiter.antt =====
-- fixedWindowLimiter of handler.go.
pub mod Window
use identity_platform_go.Base.{
  ℕ, suc, ◌+◌, Bool, true, false, Option, none, some, String, List, [], ◌∷◌, if◌then◌else◌, ltb,
  leb,
}
use identity_platform_go.Base.Dict.{Dict, lookup, insert}

-- The eviction loop: buckets whose window has ended
unfoldable pub evict : ℕ → Dict (ℕ × ℕ) → Dict (ℕ × ℕ)
evict now [] = []
evict now ((k, b) ∷ d) = let rest = evict now d in if ltb b.1 now then rest else (k, b) ∷ rest

-- `Allow`
unfoldable pub allow : ℕ → ℕ → ℕ → String → Dict (ℕ × ℕ) → Bool × Dict (ℕ × ℕ)
unfolding evict
allow max window now key d = elim (lookup key d) [
  | none ↦ (true, insert key (1, now + window) (evict now d))
  | some b ↦
      if ltb b.1 now
      then (true, insert key (1, now + window) (evict now d))
      else if leb max b.0
      then (false, d)
      else (true, insert key (suc b.0, b.1) d)
]
