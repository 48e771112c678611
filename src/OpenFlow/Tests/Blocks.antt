-- ===== src/OpenFlow/Tests/Blocks.antt =====
-- Packets with numbers as addresses on the flows of the bridge: which flow the switch takes.
use mathlib.Core.List.{Memᴰ}
use mathlib.Core.Path.{subst}
use k_vswitch.Prelude.{
  ℕ, ℤ, pos, negsuc, ◌≤◌, ◌≡◌, sym, ap, ◌∙◌, String, Bool, true, false, not, ◌&&◌, ◌||◌, some, none,
  List, [], ◌∷◌, leb, ◌==◌, arith,
}
use k_vswitch.Bools.{and_both, or_rest}
use k_vswitch.Net.{parse_cidr, parse_ip, contains}
use k_vswitch.Result.{ok}
use k_vswitch.Flows.{Flow}
use k_vswitch.OpenFlow.Switch.{Packet, matches, Decides}

-- an address against the text of an address or of a block
unfoldable pub in_block : String → ℕ → Bool
unfolding parse_cidr parse_ip contains
in_block text a = elim (parse_cidr text) [
  | ok net ↦ contains net (some a)
  | _ ↦ elim (parse_ip text) [ some n ↦ n == a | none ↦ false ]
]

abbrev at_most : ℕ → ℤ → Bool
at_most n (pos k) = leb k n
at_most n (negsuc k) = false

module _ (p : Packet ℕ) where
  -- no flow that matches has a higher priority
  abbrev settled : ℕ → List Flow → Bool
  settled n [] = true
  settled n (f ∷ fs) = (not (matches in_block f p) || at_most n f.priority) && settled n fs

  below : (n k : ℕ) (z : ℤ) → at_most n z ≡ true → z ≡ pos k → k ≤ n
  below n k (pos m) h e = ground (arith, h, number_of m k e)
    where
      number_of : (a b : ℕ) → pos a ≡ pos b → a ≡ b
      number_of a b q = cc
  below n k (negsuc m) h e = cc

  settled-highest :
      (n : ℕ) (fs : List Flow) (g : Flow) (k : ℕ)
      → settled n fs ≡ true
      → Memᴰ g fs
      → matches in_block g p ≡ true
      → g.priority ≡ pos k
      → k ≤ n
  settled-highest n [] g k h m match at = elim m [ ]
  settled-highest n (f ∷ fs) g k h (Memᴰ.head e) match at =
      below n k f.priority
        (or_rest (not (matches in_block f p)) (at_most n f.priority)
          (ap (λ (x : Flow). not (matches in_block x p)) (sym e) ∙ ap (λ b. not b) match)
          (and_both _ _ h).0)
        (ap (λ (x : Flow). x.priority) (sym e) ∙ at)
  settled-highest n (f ∷ fs) g k h (Memᴰ.tail m) match at =
      settled-highest n fs g k (and_both _ _ h).1 m match at

  pub taken :
      (fs : List Flow) (f : Flow) (n : ℕ)
      → Memᴰ f fs
      → matches in_block f p ≡ true
      → f.priority ≡ pos n
      → settled n fs ≡ true
      → Decides in_block fs p f
  taken fs f n m match at h = record {
    listed = m;
    matching = match;
    highest = λ g gm g_match k top gk ft.
        subst (λ z. k ≤ z) (same n top (sym at ∙ ft)) (settled-highest n fs g k h gm g_match gk);
  }
    where
      same : (a b : ℕ) → pos a ≡ pos b → a ≡ b
      same a b q = cc
