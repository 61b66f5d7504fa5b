-- ===== src/RequestParser/Uri/Cut.antt =====
-- The URI of a request that is cut off.
use cs_3_boost_echo_static_s.Base.{
  ℕ, Bool, ◌≡◌, ◌≢◌, refl, ◌∙◌, true, false, not, [], ◌∷◌, ◌++◌, Bytes, arith, all, split_at,
  split_at_here, split_at_later,
}
use cs_3_boost_echo_static_s.RequestParser.Chars.{is_char, is_ctl, is_tspecial}
use cs_3_boost_echo_static_s.RequestParser.Runs.{is_word, is_uri_char}
use cs_3_boost_echo_static_s.RequestParser.{no_word}
use cs_3_boost_echo_static_s.RequestParser.Uri.{ends_uri, uri_behind, uri_of}

-- A text without an end, at the end of the input or in front of one.
module _ (ends : ℕ → Bool) where
  split_at_whole :
      (text : Bytes) → all (λ c. not (ends c)) text ≡ true → split_at ends text ≡ (text, [])
  split_at_whole [] h = unfold split_at in refl
  split_at_whole (c ∷ text) h =
      split_at_later ends c text (ground arith) ∙ rw (split_at_whole text (ground arith)) refl

  split_at_front :
      (text : Bytes) (d : ℕ) (more : Bytes)
      → all (λ c. not (ends c)) text ≡ true
      → ends d ≡ true
      → split_at ends (text ++ d ∷ more) ≡ (text, d ∷ more)
  split_at_front [] d more h e = split_at_here ends d more e
  split_at_front (c ∷ text) d more h e =
      split_at_later ends c (text ++ d ∷ more) (ground arith)
      ∙ rw (split_at_front text d more (ground arith) e) refl

uri_char_ends : (u : Bytes) → all is_uri_char u ≡ true → all (λ c. not (ends_uri c)) u ≡ true
uri_char_ends [] h = refl
uri_char_ends (c ∷ u) h = ground (arith, uri_char_ends u)

blank_no_word : no_word b' ' ≡ true
unfolding is_char is_ctl is_tspecial
blank_no_word = refl

-- Behind a method and a blank, as much of a URI as there is.
pub uri_of_cut :
    (method u : Bytes)
    → method ≢ []
    → all is_word method ≡ true
    → all is_uri_char u ≡ true
    → uri_of (method ++ b' ' ∷ u) ≡ u
unfolding uri_of uri_behind
uri_of_cut [] u n h k = absurd (n refl)
uri_of_cut (m ∷ method) u n h k =
    rw
      (
        first,
        split_at_front no_word method b' ' u (ground arith) blank_no_word,
        split_at_whole ends_uri u (uri_char_ends u k),
      )
      refl
  where
    first : no_word m ≡ false
    first = ground arith
