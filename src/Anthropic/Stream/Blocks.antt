-- ===== src/Anthropic/Stream/Blocks.antt =====
-- The blocks of a stream of proxy/src/api/anthropic.rs: what opening, closing and handing out one does.
use sovereign_engine.Prelude.{ℕ, ◌+◌, ◌≤◌, Bool, true, false, if◌then◌else◌, ◌≡◌, refl, ◌≢◌, arith}
use sovereign_engine.Anthropic.Stream.Protocol.{BlockStatus, Agrees, fresh, live, finished}

-- A block that was handed out and did nothing yet is opened: those that have it open are one
-- more, and those that wait for it are at most one less.
pub opens_block :
    (hit : Bool) (st : BlockStatus) (opens more waits less : ℕ)
    → Agrees st opens waits
    → (hit ≡ true → (st ≡ fresh) × (less ≡ 0))
    → more ≡ opens + (if hit then 1 else 0)
    → (if hit then less else waits) ≡ less
    → Agrees (if hit then live else st) more less
opens_block false st opens more waits less a u e f = ground arith
opens_block true fresh opens more waits less a u e f = ground arith
opens_block true live opens more waits less a u e f = ground arith
opens_block true finished opens more waits less a u e f = ground arith

-- A block that is open is closed.
pub closes_block :
    (hit : Bool) (st : BlockStatus) (opens less waits : ℕ)
    → Agrees st opens waits
    → (hit ≡ true → st ≡ live)
    → less + (if hit then 1 else 0) ≡ opens
    → Agrees (if hit then finished else st) less waits
closes_block false st opens less waits a l e = ground arith
closes_block true fresh opens less waits a l e = ground (arith, l refl)
closes_block true live opens less waits a l e = ground arith
closes_block true finished opens less waits a l e = ground (arith, l refl)

-- A block that was not handed out is handed out to a call.
pub hands_out_block :
    (hit : Bool) (st : BlockStatus) (opens waits more : ℕ)
    → Agrees st opens waits
    → (hit ≡ true → (st ≡ fresh) × (waits ≡ 0))
    → more ≡ waits + (if hit then 1 else 0)
    → Agrees st opens more
hands_out_block false st opens waits more a u e = ground arith
hands_out_block true fresh opens waits more a u e = ground arith
hands_out_block true live opens waits more a u e = ground arith
hands_out_block true finished opens waits more a u e = ground arith

-- A block that someone has open is live.
pub live_of_open :
    (st : BlockStatus) (opens waits : ℕ) → Agrees st opens waits → 1 ≤ opens → st ≡ live
live_of_open fresh opens waits a h = absurd (omega (arith, a.0))
live_of_open live opens waits a h = refl
live_of_open finished opens waits a h = absurd (omega (arith, a.0))

-- A block that a call waits for is fresh, and no other call waits for it.
pub fresh_of_waiting :
    (st : BlockStatus) (opens waits : ℕ)
    → Agrees st opens waits
    → 1 ≤ waits
    → (st ≡ fresh) × (waits ≡ 1)
fresh_of_waiting fresh opens waits a h = (refl, omega (arith, a.1))
fresh_of_waiting live opens waits a h = absurd (omega (arith, a.1))
fresh_of_waiting finished opens waits a h = absurd (omega (arith, a.1))

-- A block that nobody has open is not live.
pub not_live : (st : BlockStatus) (waits : ℕ) → Agrees st 0 waits → st ≢ live
not_live fresh waits a e = ground arith
not_live live waits a e = absurd (omega (arith, a.0))
not_live finished waits a e = ground arith

pub fewer_waits :
    (st : BlockStatus) (opens waits less : ℕ)
    → Agrees st opens waits
    → less ≤ waits
    → Agrees st opens less
fewer_waits fresh opens waits less a h = (a.0, omega (arith, a.1))
fewer_waits live opens waits less a h = (a.0, omega (arith, a.1))
fewer_waits finished opens waits less a h = (a.0, omega (arith, a.1))
