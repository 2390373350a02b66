-- ===== src/Secp/Hash/Transform.antt =====
-- The transformation of a block, `secp256k1_sha256_transform`: four passes of 16 rounds.
use tinychain.Base.{ℕ, ◌+◌, List}
use tinychain.Secp.Hash.{u32, State, round, Window, window, next_window}

unfoldable pub rounds_0 : State → Window → State
rounds_0 v w =
    let v1 = round v 0x428a2f98 w.w0 in
    let v2 = round v1 0x71374491 w.w1 in
    let v3 = round v2 0xb5c0fbcf w.w2 in
    let v4 = round v3 0xe9b5dba5 w.w3 in
    let v5 = round v4 0x3956c25b w.w4 in
    let v6 = round v5 0x59f111f1 w.w5 in
    let v7 = round v6 0x923f82a4 w.w6 in
    let v8 = round v7 0xab1c5ed5 w.w7 in
    let v9 = round v8 0xd807aa98 w.w8 in
    let v10 = round v9 0x12835b01 w.w9 in
    let v11 = round v10 0x243185be w.w10 in
    let v12 = round v11 0x550c7dc3 w.w11 in
    let v13 = round v12 0x72be5d74 w.w12 in
    let v14 = round v13 0x80deb1fe w.w13 in
    let v15 = round v14 0x9bdc06a7 w.w14 in let v16 = round v15 0xc19bf174 w.w15 in v16

unfoldable pub rounds_16 : State → Window → State
rounds_16 v w =
    let v1 = round v 0xe49b69c1 w.w0 in
    let v2 = round v1 0xefbe4786 w.w1 in
    let v3 = round v2 0x0fc19dc6 w.w2 in
    let v4 = round v3 0x240ca1cc w.w3 in
    let v5 = round v4 0x2de92c6f w.w4 in
    let v6 = round v5 0x4a7484aa w.w5 in
    let v7 = round v6 0x5cb0a9dc w.w6 in
    let v8 = round v7 0x76f988da w.w7 in
    let v9 = round v8 0x983e5152 w.w8 in
    let v10 = round v9 0xa831c66d w.w9 in
    let v11 = round v10 0xb00327c8 w.w10 in
    let v12 = round v11 0xbf597fc7 w.w11 in
    let v13 = round v12 0xc6e00bf3 w.w12 in
    let v14 = round v13 0xd5a79147 w.w13 in
    let v15 = round v14 0x06ca6351 w.w14 in let v16 = round v15 0x14292967 w.w15 in v16

unfoldable pub rounds_32 : State → Window → State
rounds_32 v w =
    let v1 = round v 0x27b70a85 w.w0 in
    let v2 = round v1 0x2e1b2138 w.w1 in
    let v3 = round v2 0x4d2c6dfc w.w2 in
    let v4 = round v3 0x53380d13 w.w3 in
    let v5 = round v4 0x650a7354 w.w4 in
    let v6 = round v5 0x766a0abb w.w5 in
    let v7 = round v6 0x81c2c92e w.w6 in
    let v8 = round v7 0x92722c85 w.w7 in
    let v9 = round v8 0xa2bfe8a1 w.w8 in
    let v10 = round v9 0xa81a664b w.w9 in
    let v11 = round v10 0xc24b8b70 w.w10 in
    let v12 = round v11 0xc76c51a3 w.w11 in
    let v13 = round v12 0xd192e819 w.w12 in
    let v14 = round v13 0xd6990624 w.w13 in
    let v15 = round v14 0xf40e3585 w.w14 in let v16 = round v15 0x106aa070 w.w15 in v16

unfoldable pub rounds_48 : State → Window → State
rounds_48 v w =
    let v1 = round v 0x19a4c116 w.w0 in
    let v2 = round v1 0x1e376c08 w.w1 in
    let v3 = round v2 0x2748774c w.w2 in
    let v4 = round v3 0x34b0bcb5 w.w3 in
    let v5 = round v4 0x391c0cb3 w.w4 in
    let v6 = round v5 0x4ed8aa4a w.w5 in
    let v7 = round v6 0x5b9cca4f w.w6 in
    let v8 = round v7 0x682e6ff3 w.w7 in
    let v9 = round v8 0x748f82ee w.w8 in
    let v10 = round v9 0x78a5636f w.w9 in
    let v11 = round v10 0x84c87814 w.w10 in
    let v12 = round v11 0x8cc70208 w.w11 in
    let v13 = round v12 0x90befffa w.w12 in
    let v14 = round v13 0xa4506ceb w.w13 in
    let v15 = round v14 0xbef9a3f7 w.w14 in let v16 = round v15 0xc67178f2 w.w15 in v16

unfoldable pub add_state : State → State → State
add_state s v = record {
  a = u32 (s.a + v.a);
  b = u32 (s.b + v.b);
  c = u32 (s.c + v.c);
  d = u32 (s.d + v.d);
  e = u32 (s.e + v.e);
  f = u32 (s.f + v.f);
  g = u32 (s.g + v.g);
  h = u32 (s.h + v.h);
}

unfoldable pub transform : State → List ℕ → State
transform s chunk =
    let w16 = window chunk in
    let v16 = rounds_0 s w16 in
    let w32 = next_window w16 in
    let v32 = rounds_16 v16 w32 in
    let w48 = next_window w32 in
    let v48 = rounds_32 v32 w48 in
    let w64 = next_window w48 in let v64 = rounds_48 v48 w64 in add_state s v64
