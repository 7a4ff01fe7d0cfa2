-- ===== src/Core/Compaction/Shape.antt =====
-- What a compaction by core/compaction.py leaves of a conversation: its system messages, its first
-- question, the roles and their order, and which reply stands where.
use vishwakarma.Prelude.{
  ℕ, suc, ◌-◌, ◌/◌, ◌<◌, String, ◌≡◌, refl, sym, ap, subst, ◌∙◌, true, Option, List, [], ◌∷◌, map,
  arith, leb, if◌then◌else◌, length, all,
}
use vishwakarma.Core.Conversation.{Message, Role, Content, is_tool}
use vishwakarma.Core.Compaction.{
  insert_by_size, sort_by_size, allocate, rebuild, tool_messages, non_tool_messages, count_tokens,
  with_sizes, truncate_tools, proportional_truncate,
}

module _ {P : Type 0} where
  abbrev pub ids : List (Message P) → List String
  ids = map (λ m. m.tool_call_id)

  abbrev pub roles : List (Message P) → List Role
  roles = map (λ m. m.role)

  abbrev pub unsized : List (Message P × ℕ) → List (Message P)
  unsized = map (λ x. x.0)

  abbrev AllTools : List (Message P) → Type 0
  AllTools ms = all (λ m. is_tool m.role) ms ≡ true

  all-insert :
      (x : Message P × ℕ) (ys : List (Message P × ℕ))
      → AllTools (unsized (x ∷ ys))
      → AllTools (unsized (insert_by_size x ys))
  unfolding insert_by_size
  all-insert x [] h = h
  all-insert x (y ∷ ys) h = ground (arith, all-insert x ys)

  all-sort :
      (xs : List (Message P × ℕ)) → AllTools (unsized xs) → AllTools (unsized (sort_by_size xs))
  unfolding sort_by_size
  all-sort [] h = refl
  all-sort (x ∷ xs) h = all-insert x (sort_by_size xs) (ground (arith, all-sort xs))

  length-insert :
      (x : Message P × ℕ) (ys : List (Message P × ℕ))
      → length (insert_by_size x ys) ≡ suc (length ys)
  unfolding insert_by_size
  length-insert x [] = refl
  length-insert x (y ∷ ys) = ground (arith, length-insert x ys)

  length-sort : (xs : List (Message P × ℕ)) → length (sort_by_size xs) ≡ length xs
  unfolding sort_by_size
  length-sort [] = refl
  length-sort (x ∷ xs) = length-insert x (sort_by_size xs) ∙ ap suc (length-sort xs)

  all-allocate :
      (r : ℕ) (xs : List (Message P × ℕ)) → AllTools (unsized xs) → AllTools (allocate r xs)
  unfolding allocate
  all-allocate r [] h = refl
  all-allocate r ((m, s) ∷ xs) h =
      let share = r / suc (length xs) in
      ground (arith, all-allocate (r - (if leb s share then s else share)) xs)

  length-allocate : (r : ℕ) (xs : List (Message P × ℕ)) → length (allocate r xs) ≡ length xs
  unfolding allocate
  length-allocate r [] = refl
  length-allocate r ((m, s) ∷ xs) =
      let share = r / suc (length xs) in
      ap suc (length-allocate (r - (if leb s share then s else share)) xs)

  -- cutting a message keeps the call that it answers
  ids-allocate : (r : ℕ) (xs : List (Message P × ℕ)) → ids (allocate r xs) ≡ ids (unsized xs)
  unfolding allocate
  ids-allocate r [] = refl
  ids-allocate r ((m, s) ∷ xs) =
      let share = r / suc (length xs) in
      ground (arith, ids-allocate (r - (if leb s share then s else share)) xs)

  tools-rebuild :
      (ms ts : List (Message P))
      → AllTools ts
      → length ts ≡ length (tool_messages ms)
      → tool_messages (rebuild ms ts) ≡ ts
  unfolding tool_messages rebuild
  tools-rebuild [] [] a n = refl
  tools-rebuild [] (t ∷ ts) a n = absurd (omega arith)
  tools-rebuild (m ∷ ms) [] a n = ground (arith, tools-rebuild ms [])
  tools-rebuild (m ∷ ms) (t ∷ ts) a n =
      ground (arith, tools-rebuild ms ts, tools-rebuild ms (t ∷ ts))

  rest-rebuild :
      (ms ts : List (Message P))
      → AllTools ts
      → (non_tool_messages (rebuild ms ts) ≡ non_tool_messages ms)
        × (roles (rebuild ms ts) ≡ roles ms)
  unfolding non_tool_messages rebuild
  rest-rebuild [] ts a = (refl, refl)
  rest-rebuild (m ∷ ms) [] a = ground (arith, rest-rebuild ms [])
  rest-rebuild (m ∷ ms) (t ∷ ts) a = ground (arith, rest-rebuild ms ts, rest-rebuild ms (t ∷ ts))

  all-keep : (ms : List (Message P)) → AllTools (tool_messages ms)
  unfolding tool_messages
  all-keep [] = refl
  all-keep (m ∷ ms) = ground (arith, all-keep ms)

module _ {P : Type 0} (litellm_count : List (Message P) → Option ℕ) (chars : Content → ℕ) where
  unsized-with_sizes : (ms : List (Message P)) → unsized (with_sizes litellm_count chars ms) ≡ ms
  unfolding with_sizes
  unsized-with_sizes [] = refl
  unsized-with_sizes (m ∷ ms) = ap (◌∷◌ m) (unsized-with_sizes ms)

  length-with_sizes :
      (ms : List (Message P)) → length (with_sizes litellm_count chars ms) ≡ length ms
  unfolding with_sizes
  length-with_sizes [] = refl
  length-with_sizes (m ∷ ms) = ap suc (length-with_sizes ms)

  -- the replies that the loop makes, in the order in which it makes them
  abbrev replies : ℕ → List (Message P) → List (Message P)
  replies room tools = allocate room (sort_by_size (with_sizes litellm_count chars tools))

  all-replies :
      (room : ℕ) (tools : List (Message P)) → AllTools tools → AllTools (replies room tools)
  all-replies room tools a =
      all-allocate room (sort_by_size (with_sizes litellm_count chars tools)) (
        all-sort (with_sizes litellm_count chars tools)
          (subst AllTools (sym (unsized-with_sizes tools)) a))

  length-replies :
      (room : ℕ) (tools : List (Message P)) → length (replies room tools) ≡ length tools
  length-replies room tools =
      length-allocate room (sort_by_size (with_sizes litellm_count chars tools))
      ∙ length-sort (with_sizes litellm_count chars tools)
      ∙ length-with_sizes tools

  truncate_tools-rest :
      (ms tools : List (Message P)) (room : ℕ)
      → AllTools tools
      → (non_tool_messages (truncate_tools litellm_count chars ms room tools)
          ≡ non_tool_messages ms)
        × (roles (truncate_tools litellm_count chars ms room tools) ≡ roles ms)
  unfolding truncate_tools
  truncate_tools-rest ms [] room a = (refl, refl)
  truncate_tools-rest ms (t ∷ ts) room a =
      rest-rebuild ms (replies room (t ∷ ts)) (all-replies room (t ∷ ts) a)

  -- A truncation leaves all messages but the tool messages as they are, and each place with the
  -- role that it had.
  pub proportional_truncate-rest :
      (ms : List (Message P)) (available : ℕ)
      → (non_tool_messages (proportional_truncate litellm_count chars ms available)
          ≡ non_tool_messages ms)
        × (roles (proportional_truncate litellm_count chars ms available) ≡ roles ms)
  unfolding proportional_truncate
  proportional_truncate-rest ms available = ground (
    arith,
    truncate_tools-rest ms (tool_messages ms)
        (available - count_tokens litellm_count chars (non_tool_messages ms)) (all-keep ms),
  )

  truncate_tools-order :
      (ms tools : List (Message P)) (room : ℕ)
      → tool_messages ms ≡ tools
      → ids (tool_messages (truncate_tools litellm_count chars ms room tools))
        ≡ ids (unsized (sort_by_size (with_sizes litellm_count chars tools)))
  unfolding truncate_tools sort_by_size with_sizes
  truncate_tools-order ms [] room e = ap ids e
  truncate_tools-order ms (t ∷ ts) room e =
      ap ids (
        tools-rebuild ms (replies room (t ∷ ts))
          (all-replies room (t ∷ ts) (subst AllTools e (all-keep ms)))
          (length-replies room (t ∷ ts) ∙ sym (ap length e)))
      ∙ ids-allocate room (sort_by_size (with_sizes litellm_count chars (t ∷ ts)))

  -- Where there is room for tool messages, a truncation leaves the replies in the order of their
  -- sizes, not in the order of the calls that they answer.
  pub proportional_truncate-order :
      (ms : List (Message P)) (available : ℕ)
      → count_tokens litellm_count chars (non_tool_messages ms) < available
      → ids (tool_messages (proportional_truncate litellm_count chars ms available))
        ≡ ids (unsized (sort_by_size (with_sizes litellm_count chars (tool_messages ms))))
  unfolding proportional_truncate
  proportional_truncate-order ms available h =
      let room = available - count_tokens litellm_count chars (non_tool_messages ms) in
      ground (arith, truncate_tools-order ms (tool_messages ms) room refl)
