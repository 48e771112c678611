-- ===== src/OpenFlow/PortCache/Bounds.antt =====
-- The ports of the cache are integers of 64 bits, whatever ovs-vsctl answers.
use k_vswitch.Prelude.{String, Option, none, some, List, [], ◌∷◌, ℤ}
use k_vswitch.Text.{trim_space}
use k_vswitch.Text.Decimal.{atoi}
use k_vswitch.Text.Decimal.RoundTrip.{FitsInt}
use k_vswitch.Text.Decimal.Bounds.{OnSome, atoi-FitsInt}
use k_vswitch.Result.{msg, wrap, Result, ok, err, panic, ◌>>=◌, context}
use k_vswitch.OpenFlow.Kube.{Pod}
use k_vswitch.OpenFlow.Ovs.{
  Ovs, PortInfo, int_of_output, find_port, mac_addr_from_port, of_port_from_name, port_info_of,
}
use k_vswitch.OpenFlow.PortCache.{PortCache, get_port_info}
use k_vswitch.OpenFlow.PortCache.Entries.{OnOk, AllGood, get_port_info-Good}

OnOk-chain :
    {A B : Type 0} (P : A → Type 0) (Q : B → Type 0) (m : Result A) (f : A → Result B)
    → OnOk P m
    → ((a : A) → P a → OnOk Q (f a))
    → OnOk Q (m >>= f)
OnOk-chain P Q (ok a) f h each = each a h
OnOk-chain P Q (err e) f h each = tt
OnOk-chain P Q panic f h each = tt

OnOk-trivial : {A : Type 0} (m : Result A) → OnOk (λ a. Unit {0}) m
OnOk-trivial (ok a) = tt
OnOk-trivial (err e) = tt
OnOk-trivial panic = tt

int_of_output-FitsInt : (out : String) → OnOk FitsInt (int_of_output out)
unfolding int_of_output
int_of_output-FitsInt out = by_number (atoi (trim_space out)) (atoi-FitsInt (trim_space out))
  where
    by_number :
        (o : Option ℤ)
        → OnSome FitsInt o
        → OnOk FitsInt (elim o [
          | none ↦ err (wrap "error converting ofport output to int" (msg "invalid syntax"))
          | some ofport ↦ ok ofport
        ])
    by_number none h = tt
    by_number (some z) h = h

of_port-FitsInt : (ovs : Ovs) (port : String) → OnOk FitsInt (of_port_from_name ovs port)
unfolding of_port_from_name
of_port-FitsInt ovs port =
    OnOk-chain (λ out. Unit) FitsInt
      (context "failed to get ofport for port"
        (ovs.vsctl ("get" ∷ "Interface" ∷ port ∷ "ofport" ∷ [])))
      int_of_output (OnOk-trivial _) (λ out h. int_of_output-FitsInt out)

-- the port's number fits
abbrev pub HasPort : PortInfo → Type 0
HasPort info = FitsInt info.ofport

port_info_of-HasPort :
    (ovs : Ovs) (namespace name : String) → OnOk HasPort (port_info_of ovs namespace name)
unfolding port_info_of
port_info_of-HasPort ovs namespace name =
    OnOk-chain (λ n. Unit) HasPort (find_port ovs namespace name) _ (OnOk-trivial _)
      (λ port h.
        OnOk-chain (λ n. Unit) HasPort (mac_addr_from_port ovs port) _ (OnOk-trivial _)
          (λ mac k.
            OnOk-chain FitsInt HasPort (of_port_from_name ovs port) _ (of_port-FitsInt ovs port)
              (λ z fits. fits)))

abbrev pub AllFit : List (String × PortInfo) → Type 0
AllFit entries = AllGood (λ key. HasPort) entries

pub get_port_info-Fits :
    (ovs : Ovs) (pod : Pod) (p : PortCache)
    → AllFit p.store
    → OnOk HasPort (get_port_info ovs pod p).0 × AllFit (get_port_info ovs pod p).1.store
get_port_info-Fits ovs pod p h =
    get_port_info-Good (λ key. HasPort) pod ovs p (port_info_of-HasPort ovs pod.namespace pod.name)
      h
