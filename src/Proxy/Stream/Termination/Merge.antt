-- ===== src/Proxy/Stream/Termination/Merge.antt =====
-- What `merge_terminal` of src/proxy/stream.rs makes of a sequence of terminal states.
use my_ai_gateway.Prelude.{
  ◌≡◌, refl, Bool, true, false, Option, none, some, List, [], ◌∷◌, find, is_some_and, or_else,
  arith, ◌∙◌,
}
use my_ai_gateway.Proxy.Transport.{StreamTermination, completed, is_failure}
use my_ai_gateway.Proxy.Stream.Termination.{merge_terminal}

-- The states merged one after the other.
unfoldable pub merge_all :
    List (Option StreamTermination) → Option StreamTermination → Option StreamTermination
unfolding merge_terminal
merge_all [] current = current
merge_all (c ∷ cs) current = merge_all cs (merge_terminal current c)

abbrev failed : Option StreamTermination → Bool
failed c = is_some_and is_failure c

abbrev ended : Option StreamTermination → Bool
ended none = false
ended (some t) = true

abbrev flatten : Option (Option StreamTermination) → Option StreamTermination
flatten none = none
flatten (some c) = c

-- The first failure of the sequence, or, without one, the first state that is there.
abbrev pub verdict : List (Option StreamTermination) → Option StreamTermination
verdict cs = or_else (flatten (find failed cs)) (flatten (find ended cs))

is_failure-false : (t : StreamTermination) → is_failure t ≡ false → t ≡ completed
unfolding is_failure
is_failure-false completed h = refl
is_failure-false _ h = absurd (cc)

verdict-merge :
    (current c : Option StreamTermination) (cs : List (Option StreamTermination))
    → verdict (merge_terminal current c ∷ cs) ≡ verdict (current ∷ c ∷ cs)
unfolding merge_terminal
verdict-merge none none cs = ground arith
verdict-merge none (some c) cs = ground arith
verdict-merge (some t) none cs = ground arith
verdict-merge (some t) (some c) cs = ground (arith, is_failure-false t, is_failure-false c)

merge_all-verdict_from :
    (cs : List (Option StreamTermination)) (current : Option StreamTermination)
    → merge_all cs current ≡ verdict (current ∷ cs)
unfolding merge_all
merge_all-verdict_from [] none = refl
merge_all-verdict_from [] (some t) = ground arith
merge_all-verdict_from (c ∷ cs) current =
    merge_all-verdict_from cs (merge_terminal current c) ∙ verdict-merge current c cs

-- The terminal states that a stream reports, merged in their order, come to the first failure among
-- them, or, if none is a failure, to the first that is there: a failure is never replaced, neither by
-- a later success nor by a later failure, and success holds only without any failure.
pub merge_all-verdict : (cs : List (Option StreamTermination)) → merge_all cs none ≡ verdict cs
merge_all-verdict cs = merge_all-verdict_from cs none ∙ ground arith
