-- ===== src/Probe/Exchange/Settling.antt =====
-- Backend/src/services/monitor.service.js, `probeOnce`: the first result of an attempt stands.
use devops_hackathon.Prelude.{ℕ, ◌≤◌, ◌<◌, ◌≡◌, true, some, arith, leb, ltb}
use devops_hackathon.Probe.{ProbeResult}
use devops_hackathon.Probe.Attempt.{Platform, Options, Exchange}
use Prim.Native.String.{String}

leb-true : {a b : ℕ} → a ≤ b → leb a b ≡ true
leb-true h = ground arith

ltb-true : {a b : ℕ} → a < b → ltb a b ≡ true
ltb-true h = ground arith

module _ (p : Platform) (o : Options) where
  -- A change of the exchange that keeps a result once it is there.
  abbrev Keeps : Exchange → Exchange → Type 0
  Keeps s t = (r : ProbeResult) → s.settled ≡ some r → t.settled ≡ some r
