-- ===== src/Secp/Hash/Words.antt =====
-- The transformation against the schedule and the table of constants over lists.
use tinychain.Base.{ℕ, List, ◌≡◌, refl}
use tinychain.Secp.Hash.{State, byte, window, next_window}
use tinychain.Secp.Hash.Transform.{rounds_0, rounds_16, rounds_32, rounds_48, transform}
use tinychain.Secp.Hash.Standard.{schedule, all_rounds, words_from, compress}

-- Transforming a block is the schedule of 64 words and the 64 rounds over lists.
pub transform-compress : (s : State) (chunk : List ℕ) → transform s chunk ≡ compress s chunk
unfolding transform window next_window rounds_0 rounds_16 rounds_32 rounds_48 schedule all_rounds
    words_from compress byte
transform-compress s chunk = refl
