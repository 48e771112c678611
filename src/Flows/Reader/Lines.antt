-- ===== src/Flows/Reader/Lines.antt =====
-- ovs-ofctl reads from the buffer of flows/buffer.go the flows that were added to it.
use Prim.Native.String.{[], ◌∷◌}
use mathlib.Core.Path.{subst}
use k_vswitch.Prelude.{◌≡◌, refl, sym, ap, ◌∙◌, String, true, none, List, All}
use k_vswitch.Text.{◌++◌, non_empty, split, join}
use k_vswitch.Text.Laws.{append_assoc, append-nil, Lacks, Lacks-append, split-append}
use k_vswitch.Flows.{Flow, new_flow, ◌▸◌, with_raw, to_string, matches_text, action_set}
use k_vswitch.Flows.Buffer.{FlowsBuffer, new_flows_buffer, put_flow}
use k_vswitch.Flows.Buffer.Emits.{put_flows}
use k_vswitch.Flows.Reader.{read_flow, flow_or_raw, read_each, read_lines}
use k_vswitch.Flows.Reader.Matches.{IsPlain, matches-Reads}
use k_vswitch.Flows.Reader.Actions.{action_set-Done}
use k_vswitch.Flows.Reader.RoundTrip.{plain_text, last-IsWord, read_flow-to_string}

-- A flow whose line can be read back: its fields can be, or it is a raw text on one line that says
-- more than the fields of a flow.
pub data IsLegible : Flow → Type 0 where
  plain : {f : Flow} → IsPlain f → IsLegible f
  raw :
      (s : String)
      → non_empty s ≡ true
      → Lacks "\n" s
      → read_flow s ≡ none
      → IsLegible (new_flow ▸ with_raw s)

-- The text of a flow is a line from which the flow is read.
record IsLine (f : Flow) : Type 0 where
  some_text : non_empty (to_string f) ≡ true
  one_line : Lacks "\n" (to_string f)
  read : flow_or_raw (to_string f) (read_flow (to_string f)) ≡ f

non_empty-append : (s t : String) → non_empty t ≡ true → non_empty (s ++ t) ≡ true
non_empty-append [] t h = h
non_empty-append (c ∷ s) t h = refl

plain-IsLine : (f : Flow) → IsPlain f → IsLine f
plain-IsLine f h =
    let actions = "actions=" ++ join "," (action_set f) in
    let text = sym (plain_text f h.not_raw) in
    record {
      some_text =
          subst (λ s. non_empty s ≡ true) text
            (non_empty-append (matches_text f) (" " ++ actions) refl);
      one_line = subst (Lacks "\n") text (
          Lacks-append "\n" (matches_text f) (" " ++ actions) (matches-Reads f h).line
            (refl, (last-IsWord (action_set f) (action_set-Done f h).words).1));
      read = ap (flow_or_raw (to_string f)) (read_flow-to_string f h);
    }

raw_text : (s : String) → non_empty s ≡ true → to_string (new_flow ▸ with_raw s) ≡ s
unfolding to_string
raw_text s h = rw h refl

legible-IsLine : (f : Flow) → IsLegible f → IsLine f
legible-IsLine f (plain h) = plain-IsLine f h
legible-IsLine _ (raw s h line refused) =
    let text = sym (raw_text s h) in
    record {
      some_text = subst (λ t. non_empty t ≡ true) text h;
      one_line = subst (Lacks "\n") text line;
      read =
          subst (λ t. flow_or_raw t (read_flow t) ≡ (new_flow ▸ with_raw s)) text
            (ap (flow_or_raw s) refused);
    }

-- the lines of flows
text_of : List Flow → String
text_of List.[] = ""
text_of (List.◌∷◌ f fs) = to_string f ++ "\n" ++ text_of fs

buffer-put_flows :
    (fs : List Flow) (b : FlowsBuffer) → (put_flows fs b).buffer ≡ b.buffer ++ text_of fs
unfolding text_of put_flow
buffer-put_flows List.[] b = sym (append-nil b.buffer)
buffer-put_flows (List.◌∷◌ f fs) b =
    buffer-put_flows fs (put_flow f b)
    ∙ append_assoc b.buffer (to_string f ++ "\n") (text_of fs)
    ∙ ap (λ t. b.buffer ++ t) (append_assoc (to_string f) "\n" (text_of fs))

read_each-text_of : (fs : List Flow) → All IsLegible fs → read_each (split "\n" (text_of fs)) ≡ fs
unfolding text_of
read_each-text_of List.[] h = unfold split in refl
read_each-text_of (List.◌∷◌ f fs) h =
    let line = legible-IsLine f h.0 in
    ap read_each (split-append "\n" (to_string f) (text_of fs) line.one_line)
    ∙ rw (line.some_text, line.read, read_each-text_of fs h.1) refl

-- Whatever flows are added to an empty buffer: the lines that it then holds are read as these flows,
-- in the order in which they were added, if each is a raw text on one line that the fields cannot
-- say, or a flow of a known protocol with no space, comma, parenthesis or line end in its texts
-- and with integers of 64 bits.
pub read_lines-put_flows :
    (fs : List Flow) → All IsLegible fs → read_lines (put_flows fs new_flows_buffer).buffer ≡ fs
unfolding read_lines
read_lines-put_flows fs h =
    ap (λ t. read_each (split "\n" t)) (buffer-put_flows fs new_flows_buffer)
    ∙ read_each-text_of fs h
