-- ===== src/Rdb/Connecting.antt =====
-- rdb/client.go: `TestConnection`, and the address that rdb/conf.go writes.
use mquery_fcs.Prelude.Integers.{written}
use mquery_fcs.Prelude.Text.{concat}
use mquery_fcs.Prelude.{String, Option, none, some, List, [], ◌∷◌, ◌≡◌, ◌↔◌, refl}
use mquery_fcs.Rdb.Conf.{Conf}

-- What the loop waits for: the end of the time for all tries or of the program, or a tick of its
-- clock with the error of the ping that it sends then.
pub data Attempt : Type 0 where
  expired : Attempt
  pinged : Option String → Attempt

-- `ServerInfo`.
unfoldable pub server_info : Conf → String
unfolding written
server_info c = concat (c.host ∷ ":" ∷ written c.port ∷ [])

-- Where `TestConnection` is after the attempts so far.
pub data Connection : Type 0 where
  trying connected : Connection
  failed : String → Connection

-- `TestConnection`, on the attempts in the order in which it takes them.
unfoldable pub test_connection : Conf → List Attempt → Connection
test_connection c [] = trying
test_connection c (expired ∷ es) =
    failed (concat ("failed to connect to the Redis server at " ∷ server_info c ∷ []))
test_connection c (pinged none ∷ es) = connected
test_connection c (pinged (some e) ∷ es) = test_connection c es

-- A ping is answered, and the time does not run out before.
abbrev pub Answered : List Attempt → Type 0
Answered [] = ⊥
Answered (expired ∷ es) = ⊥
Answered (pinged none ∷ es) = Unit
Answered (pinged (some e) ∷ es) = Answered es

-- The time runs out, and no ping is answered before.
abbrev pub RunsOut : List Attempt → Type 0
RunsOut [] = ⊥
RunsOut (expired ∷ es) = Unit
RunsOut (pinged none ∷ es) = ⊥
RunsOut (pinged (some e) ∷ es) = RunsOut es

abbrev pub failure : Conf → Connection
failure c = failed (concat ("failed to connect to the Redis server at " ∷ server_info c ∷ []))

-- The test succeeds exactly if a ping is answered before the time runs out, and fails, with the
-- address in its message, exactly if the time runs out before; an error of a ping ends nothing.
pub test_connection-Answered :
    (c : Conf) (es : List Attempt)
    → (test_connection c es ≡ connected ↔ Answered es)
      × (test_connection c es ≡ failure c ↔ RunsOut es)
unfolding test_connection
test_connection-Answered c [] = ((λ h. cc, λ a. absurd a), (λ h. cc, λ a. absurd a))
test_connection-Answered c (expired ∷ es) = ((λ h. cc, λ a. absurd a), (λ h. tt, λ a. refl))
test_connection-Answered c (pinged none ∷ es) = ((λ h. tt, λ a. refl), (λ h. cc, λ a. absurd a))
test_connection-Answered c (pinged (some e) ∷ es) = test_connection-Answered c es
