-- ===== src/Core/Correlation/Window.antt =====
-- Which investigation core/correlation.py finds for an entity, with no Redis.
use vishwakarma.Prelude.{
  ℕ, ◌+◌, String, ◌≡◌, false, Option, none, some, List, [], ◌∷◌, arith, str_eq, eq_iff, ltb,
  if◌then◌else◌, any,
}
use vishwakarma.Prelude.Dict
use vishwakarma.Prelude.Dict.{get-put, get-pop}
use vishwakarma.Core.Correlation.{
  CorrRedis, Links, find_local, find_on, find_correlated, link_local, link_on, link, unlink_on,
  unlink,
}

-- the calls that change the links, each with its time
pub data LinkOp : Type 0 where
  relink : ℕ → String → String → ℕ → LinkOp
  drop_link : ℕ → String → LinkOp

abbrev pub key_of : LinkOp → String
key_of (relink now k i ttl) = k
key_of (drop_link now k) = k

module _ {redis : CorrRedis} where
  unfoldable pub apply_link : LinkOp → Links redis → Links redis
  apply_link (relink now k i ttl) s = link now k i ttl s
  apply_link (drop_link now k) s = unlink now k s

  unfoldable pub apply_links : List LinkOp → Links redis → Links redis
  apply_links [] s = s
  apply_links (op ∷ ops) s = apply_links ops (apply_link op s)

  -- alone, and the entry of `key` is `entry`
  record Entry (key : String) (entry : Option (String × ℕ)) (s : Links redis) : Type 0 where
    alone : s.server ≡ none
    holds : Dict.get key s.linked ≡ entry

  apply_link-Entry :
      (key : String) (entry : Option (String × ℕ)) (op : LinkOp) (s : Links redis)
      → str_eq (key_of op) key ≡ false
      → Entry key entry s
      → Entry key entry (apply_link op s)
  unfolding apply_link link link_on link_local unlink unlink_on
  apply_link-Entry key entry (relink now k i ttl) s d h = record {
    alone = ground (arith, h.alone);
    holds = ground (arith, h.alone, h.holds, get-put k key (i, now + ttl) s.linked);
  }
  apply_link-Entry key entry (drop_link now k) s d h = record {
    alone = ground (arith, h.alone);
    holds = ground (arith, h.alone, h.holds, get-pop k key s.linked);
  }

  apply_links-Entry :
      (key : String) (entry : Option (String × ℕ)) (ops : List LinkOp) (s : Links redis)
      → any (λ op. str_eq (key_of op) key) ops ≡ false
      → Entry key entry s
      → Entry key entry (apply_links ops s)
  unfolding apply_links
  apply_links-Entry key entry [] s d h = h
  apply_links-Entry key entry (op ∷ ops) s d h =
      apply_links-Entry key entry ops (apply_link op s) (ground arith)
        (apply_link-Entry key entry op s (ground arith) h)

  link-Entry :
      (now : ℕ) (key i : String) (ttl : ℕ) (s : Links redis)
      → str_eq key "" ≡ false
      → s.server ≡ none
      → Entry key (some (i, now + ttl)) (link now key i ttl s)
  unfolding link link_on link_local
  link-Entry now key i ttl s k alone = record {
    alone = ground (arith, alone);
    holds = ground (arith, alone, eq_iff key key, get-put key key (i, now + ttl) s.linked);
  }

  -- Without Redis, an alert whose entity was linked to an investigation finds it until the window is
  -- over and nothing after, whatever links of other entities are made or dropped between; an empty
  -- key is left out.
  pub find_correlated-link :
      (now later : ℕ) (key i : String) (ttl : ℕ) (ops : List LinkOp) (s : Links redis)
      → str_eq key "" ≡ false
      → s.server ≡ none
      → any (λ op. str_eq (key_of op) key) ops ≡ false
      → (find_correlated later key (apply_links ops (link now key i ttl s))).0
        ≡ (if ltb later (now + ttl) then some i else none)
  unfolding find_correlated find_on find_local
  find_correlated-link now later key i ttl ops s k alone d =
      let e =
        apply_links-Entry key (some (i, now + ttl)) ops (link now key i ttl s) d
          (link-Entry now key i ttl s k alone) in
      ground (arith, k, e.alone, e.holds)
