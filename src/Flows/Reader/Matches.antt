-- ===== src/Flows/Reader/Matches.antt =====
-- What ovs-ofctl reads from the matches that `Flow.String` of flows/flows.go writes.
use Prim.Native.String.{[], ◌∷◌}
use mathlib.Core.Path.{subst}
use k_vswitch.Prelude.{
  zero, suc, ◌≡◌, refl, sym, ap, ◌∙◌, ◌⊎◌, inl, inr, String, Bool, true, false, ◌||◌, some, List, ℤ,
  pos, negsuc, non_zero, if◌then◌else◌, str_eq, eq_iff, All, Bool-cases,
}
use k_vswitch.Bools.{or_rest}
use k_vswitch.Text.{◌++◌, non_empty}
use k_vswitch.Text.Decimal.{format, atoi}
use k_vswitch.Text.Decimal.RoundTrip.{FitsInt, atoi-format}
use k_vswitch.Flows.{
  Flow, with_protocol, new_flow, ◌▸◌, with_table, with_priority, with_ip_dest, with_ip_src,
  with_arp_dest, with_arp_src, with_tcp_dest_port, with_tcp_src_port, with_udp_dest_port,
  with_udp_src_port, put_text, put_int, matches_text,
}
use k_vswitch.Flows.Reader.{key_of, value_of, is_protocol, number_into, read_field}
use k_vswitch.Flows.Reader.Words.{
  read_word, is_argument, IsWord, Reads-next, is_argument-append, argument-IsWord,
  is_argument-format, Reads, Reads-word,
}

-- A flow whose text can be read back: it has no raw text, its protocol is a known one, its texts
-- hold no space, comma or parenthesis, and its numbers are integers of 64 bits.
pub record IsPlain (f : Flow) : Type 0 where
  pub not_raw : f.raw ≡ ""
  pub protocol : (f.protocol ≡ "") ⊎ (is_protocol f.protocol ≡ true)
  pub texts :
      All
        (λ s. is_argument s ≡ true)
        (List.◌∷◌ f.ip_dest (
          List.◌∷◌ f.ip_src (
            List.◌∷◌ f.arp_dest
              (List.◌∷◌ f.arp_src (List.◌∷◌ f.tun_dest (List.◌∷◌ f.mod_dl_dest List.[]))))))
  pub numbers : All FitsInt (
      List.◌∷◌ f.table (
        List.◌∷◌ f.priority (
          List.◌∷◌ f.tcp_dest_port (
            List.◌∷◌ f.tcp_src_port (
              List.◌∷◌ f.udp_dest_port
                (List.◌∷◌ f.udp_src_port (List.◌∷◌ f.output (List.◌∷◌ f.resubmit List.[]))))))))

pub empty_of : (s : String) → non_empty s ≡ false → s ≡ ""
empty_of [] h = refl
empty_of (c ∷ s) h = cc

pub zero_of : (z : ℤ) → non_zero z ≡ false → z ≡ pos 0
zero_of (pos zero) h = refl
zero_of (pos (suc n)) h = cc
zero_of (negsuc n) h = cc

pub number-IsWord : (label : String) (z : ℤ) → is_argument label ≡ true → IsWord (label ++ format z)
number-IsWord label z h =
    argument-IsWord (label ++ format z)
      (is_argument-append label (format z) h (is_argument-format z))

-- a labelled value is read into the field of its label
module _ (label : String) (plain : is_argument label ≡ true) (t : String) (f : Flow)
    (reads : Reads t f) where
  put_text-Reads :
      (with : String → Flow → Flow) (v : String)
      → is_argument v ≡ true
      → read_field (key_of (label ++ v)) (value_of (label ++ v)) f ≡ some (with v f)
      → with "" f ≡ f
      → Reads (put_text label v t) (with v f)
  unfolding put_text
  put_text-Reads with v h read absent =
      Reads-word (non_empty v) t (label ++ v) f (with v f) reads
        (argument-IsWord (label ++ v) (is_argument-append label v plain h)) (λ e. read)
        (λ e. sym absent ∙ ap (λ x. with x f) (sym (empty_of v e)))

  put_int-Reads :
      (with : ℤ → Flow → Flow) (z : ℤ)
      → FitsInt z
      → read_field (key_of (label ++ format z)) (value_of (label ++ format z)) f
        ≡ number_into with f (atoi (format z))
      → with (pos 0) f ≡ f
      → Reads (put_int label z t) (with z f)
  unfolding put_int
  put_int-Reads with z h read absent =
      Reads-word (non_zero z) t (label ++ format z) f (with z f) reads (number-IsWord label z plain)
        (λ e. read ∙ ap (number_into with f) (atoi-format z h))
        (λ e. sym absent ∙ ap (λ x. with x f) (sym (zero_of z e)))

pub str_eq_refl : (s : String) → str_eq s s ≡ true
str_eq_refl s = (eq_iff s s).1 refl

-- one of the words of `is_protocol`
by_word :
    (p w : String) (others : Bool) (P : String → Type 0)
    → (str_eq p w || others) ≡ true
    → P w
    → (others ≡ true → P p)
    → P p
by_word p w others P h here there = elim (Bool-cases (str_eq p w)) [
  | inl e ↦ subst P (sym ((eq_iff p w).0 e)) here
  | inr e ↦ there (or_rest (str_eq p w) others e h)
]

-- a protocol is a word that is read into its field
abbrev IsRead : Flow → String → Type 0
IsRead f p =
    (is_argument p ≡ true) × (read_field (key_of p) (value_of p) f ≡ some (with_protocol p f))

protocol-IsRead : (f : Flow) (p : String) → is_protocol p ≡ true → IsRead f p
unfolding read_field
protocol-IsRead f p h =
    by_word p "ip" _ (IsRead f) h (refl, refl)
      λ h.
        by_word p "arp" _ (IsRead f) h (refl, refl)
          λ h.
            by_word p "icmp" _ (IsRead f) h (refl, refl)
              λ h.
                by_word p "tcp" _ (IsRead f) h (refl, refl)
                  λ h.
                    by_word p "udp" _ (IsRead f) h (refl, refl)
                      λ h. subst (IsRead f) (sym ((eq_iff p "sctp").0 h)) (refl, refl)

put_protocol-Reads :
    (t : String) (f : Flow) (p : String)
    → Reads t f
    → (p ≡ "") ⊎ (is_protocol p ≡ true)
    → with_protocol "" f ≡ f
    → Reads (put_text "" p t) (with_protocol p f)
unfolding put_text
put_protocol-Reads t f p reads (inl e) absent =
    subst (λ x. Reads (if non_empty x then t ++ " " ++ x else t) (with_protocol x f)) (sym e)
      (subst (Reads t) (sym absent) reads)
put_protocol-Reads t f p reads (inr h) absent =
    let (plain, read) = protocol-IsRead f p h in
    put_text-Reads "" refl t f reads with_protocol p plain read absent

first-Reads :
    (w : String) (f : Flow)
    → IsWord w
    → read_field (key_of w) (value_of w) new_flow ≡ some f
    → Reads w f
first-Reads w f h e = record { at = λ rest. read_word w rest new_flow f h e; line = h.1 }

-- the first two words
head-Reads :
    (table priority : ℤ)
    → FitsInt table
    → FitsInt priority
    → Reads
        ("table=" ++ format table ++ " priority=" ++ format priority)
        (new_flow ▸ with_table table ▸ with_priority priority)
unfolding read_field
head-Reads table priority h k =
    let g = with_table table new_flow in
    Reads-next ("table=" ++ format table) ("priority=" ++ format priority) g
      (with_priority priority g)
      (first-Reads ("table=" ++ format table) g (number-IsWord "table=" table refl)
        (ap (number_into with_table new_flow) (atoi-format table h)))
      (number-IsWord "priority=" priority refl)
      (ap (number_into with_priority g) (atoi-format priority k))

-- the flow without its actions
abbrev pub matched : Flow → Flow
matched f = record f {
  tun_dest = "";
  mod_dl_dest = "";
  output = pos 0;
  resubmit = pos 0;
  drop = false;
  local = false;
  raw = "";
}

pub matches-Reads : (f : Flow) → IsPlain f → Reads (matches_text f) (matched f)
unfolding matches_text read_field
matches-Reads f h =
    let (ip_dest, (ip_src, (arp_dest, (arp_src, more)))) = h.texts in
    let (table, (priority, (tcp_dest, (tcp_src, (udp_dest, (udp_src, rest)))))) = h.numbers in
    let r0 = head-Reads f.table f.priority table priority in
    let r1 =
      put_protocol-Reads ("table=" ++ format f.table ++ " priority=" ++ format f.priority) _
        f.protocol r0 h.protocol refl in
    let r2 = put_text-Reads "nw_dst=" refl _ _ r1 with_ip_dest f.ip_dest ip_dest refl refl in
    let r3 = put_text-Reads "nw_src=" refl _ _ r2 with_ip_src f.ip_src ip_src refl refl in
    let r4 = put_text-Reads "arp_tpa=" refl _ _ r3 with_arp_dest f.arp_dest arp_dest refl refl in
    let r5 = put_text-Reads "arp_spa=" refl _ _ r4 with_arp_src f.arp_src arp_src refl refl in
    let r6 =
      put_int-Reads "tcp_dst=" refl _ _ r5 with_tcp_dest_port f.tcp_dest_port tcp_dest refl refl in
    let r7 =
      put_int-Reads "tcp_src=" refl _ _ r6 with_tcp_src_port f.tcp_src_port tcp_src refl refl in
    let r8 =
      put_int-Reads "udp_dst=" refl _ _ r7 with_udp_dest_port f.udp_dest_port udp_dest refl refl in
    put_int-Reads "udp_src=" refl _ _ r8 with_udp_src_port f.udp_src_port udp_src refl refl
