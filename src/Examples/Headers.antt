-- ===== src/Examples/Headers.antt =====
-- Headers and message types of src/pfcp and src/gtpv2c.
use openair_spgwc.Prelude.{◌≡◌, some, [], ◌∷◌, ◌++◌, arith}
use openair_spgwc.Pfcp.Header.{set_seid, pfcp_msg, Header as PfcpHeader}
use openair_spgwc.Pfcp.Header.{
  set_sequence_number as pfcp_set_sequence_number, load_from as pfcp_load_from,
  dump_to as pfcp_dump_to,
}
use openair_spgwc.Pfcp.Header.RoundTrip.{pfcp_load_from-dump_to, pfcp_msg-IsHeader}
use openair_spgwc.Pfcp.Header.RoundTrip.{IsHeader as IsPfcpHeader, on_wire as pfcp_on_wire}
use openair_spgwc.Gtpv2c.Header.{
  set_teid, gtpv2c_msg, set_sequence_number, load_from, dump_to, Header,
}
use openair_spgwc.Gtpv2c.Header.RoundTrip.{
  gtpv2c_load_from-dump_to, gtpv2c_msg-IsHeader, IsHeader, on_wire,
}

abbrev pfcp_header : PfcpHeader
pfcp_header = pfcp_set_sequence_number 0x1020304 (set_seid 9 (pfcp_msg 50 []).header)

pfcp_header-IsHeader : IsPfcpHeader pfcp_header
pfcp_header-IsHeader = pfcp_msg-IsHeader 50 9 0x1020304 [] (omega arith) (omega arith)

pfcp_load_from-dump_to_example :
    pfcp_load_from (pfcp_dump_to pfcp_header ++ (1 ∷ 2 ∷ []))
    ≡ some (pfcp_on_wire pfcp_header, 1 ∷ 2 ∷ [])
pfcp_load_from-dump_to_example =
    pfcp_load_from-dump_to pfcp_header (1 ∷ 2 ∷ []) pfcp_header-IsHeader

abbrev gtpv2c_header : Header
gtpv2c_header = set_sequence_number 0x1020304 (set_teid 9 (gtpv2c_msg 32 []).header)

gtpv2c_header-IsHeader : IsHeader gtpv2c_header
gtpv2c_header-IsHeader = gtpv2c_msg-IsHeader 32 9 0x1020304 [] (omega arith) (omega arith)

gtpv2c_load_from-dump_to_example :
    load_from (dump_to gtpv2c_header ++ (1 ∷ 2 ∷ [])) ≡ some (on_wire gtpv2c_header, 1 ∷ 2 ∷ [])
gtpv2c_load_from-dump_to_example =
    gtpv2c_load_from-dump_to gtpv2c_header (1 ∷ 2 ∷ []) gtpv2c_header-IsHeader
