-- ===== src/Advisory/Table/WarningIndicator.antt =====
-- internal/advisory/decision_table.json: WARNING by indicator and drive.
use audiax_backend.Common.{false, List, [], ◌∷◌}
use audiax_backend.Common.Text.{text}
use audiax_backend.Advisory.{Cell}

unfoldable pub warning_indicator : List Cell
warning_indicator =
    record {
      key = text "WARNING|kurtosis|belt|*";
      urgency = text "rencanakan_dalam_7_hari";
      safety_gate =
          text "Matikan mesin dan tunggu impeler berhenti total sebelum memeriksa apa pun.";
      checklist =
          text
            "Periksa ketegangan sabuk - tekan di tengah, lendutan wajar sekitar 1 cm per 100 cm jarak puli."
          ∷ text "Lihat permukaan sabuk: retak, mengkilap, atau serat terkelupas."
          ∷ text "Cek baut dudukan motor dan blower, kencangkan yang longgar."
          ∷ text "Raba rumah bearing (mesin mati): terasa jauh lebih panas dari biasanya?"
          ∷ text
              "Dengarkan dari jarak aman saat mesin dinyalakan sebentar: ada bunyi 'klik' atau 'ketuk' berulang?"
          ∷ [];
      escalate_if =
          text
            "Kalau semua hal di atas terlihat normal tapi status mesin masih WARNING pada inspeksi minggu depan, panggil teknisi.";
      recheck_hours = 168;
      needs_technician = false;
    }
    ∷ record {
      key = text "WARNING|kurtosis|direct-coupled|*";
      urgency = text "rencanakan_dalam_7_hari";
      safety_gate =
          text "Matikan mesin dan tunggu impeler berhenti total sebelum memeriksa apa pun.";
      checklist =
          text "Periksa kopling karet penghubung poros motor dan blower: retak atau aus?"
          ∷ text "Putar poros dengan tangan (mesin mati): terasa seret, goyang, atau tidak rata?"
          ∷ text "Cek baut dudukan motor, blower, dan kopling, kencangkan yang longgar."
          ∷ text "Raba rumah bearing (mesin mati): terasa jauh lebih panas dari biasanya?"
          ∷ text
              "Dengarkan dari jarak aman saat mesin dinyalakan sebentar: ada bunyi 'klik' atau 'ketuk' berulang?"
          ∷ [];
      escalate_if =
          text
            "Kalau semua hal di atas terlihat normal tapi status mesin masih WARNING pada inspeksi minggu depan, panggil teknisi.";
      recheck_hours = 168;
      needs_technician = false;
    }
    ∷ record {
      key = text "WARNING|kurtosis|direct-drive|*";
      urgency = text "rencanakan_dalam_7_hari";
      safety_gate =
          text "Matikan mesin dan tunggu impeler berhenti total sebelum memeriksa apa pun.";
      checklist =
          text "Periksa baut dudukan unit motor-blower, kencangkan yang longgar."
          ∷ text
              "Lihat kipas/impeler dari luar (mesin mati): ada kotoran, debu tebal, atau benda asing yang menempel?"
          ∷ text "Bersihkan kisi ventilasi pendingin motor dari debu."
          ∷ text "Raba rumah bearing (mesin mati): terasa jauh lebih panas dari biasanya?"
          ∷ text
              "Dengarkan dari jarak aman saat mesin dinyalakan sebentar: ada bunyi 'klik' atau 'ketuk' berulang?"
          ∷ [];
      escalate_if =
          text
            "Kalau semua hal di atas terlihat normal tapi status mesin masih WARNING pada inspeksi minggu depan, panggil teknisi.";
      recheck_hours = 168;
      needs_technician = false;
    }
    ∷ record {
      key = text "WARNING|crest_factor|belt|*";
      urgency = text "rencanakan_dalam_7_hari";
      safety_gate =
          text "Matikan mesin dan tunggu impeler berhenti total sebelum memeriksa apa pun.";
      checklist =
          text
            "Periksa ketegangan sabuk - tekan di tengah, lendutan wajar sekitar 1 cm per 100 cm jarak puli."
          ∷ text "Lihat permukaan sabuk: retak, mengkilap, atau serat terkelupas."
          ∷ text "Cek baut dudukan motor dan blower, kencangkan yang longgar."
          ∷ text "Raba rumah bearing (mesin mati): terasa jauh lebih panas dari biasanya?"
          ∷ [];
      escalate_if =
          text
            "Kalau semua hal di atas terlihat normal tapi status mesin masih WARNING pada inspeksi minggu depan, panggil teknisi.";
      recheck_hours = 168;
      needs_technician = false;
    }
    ∷ record {
      key = text "WARNING|crest_factor|direct-coupled|*";
      urgency = text "rencanakan_dalam_7_hari";
      safety_gate =
          text "Matikan mesin dan tunggu impeler berhenti total sebelum memeriksa apa pun.";
      checklist =
          text "Periksa kopling karet penghubung poros motor dan blower: retak atau aus?"
          ∷ text "Putar poros dengan tangan (mesin mati): terasa seret, goyang, atau tidak rata?"
          ∷ text "Cek baut dudukan motor, blower, dan kopling, kencangkan yang longgar."
          ∷ text "Raba rumah bearing (mesin mati): terasa jauh lebih panas dari biasanya?"
          ∷ [];
      escalate_if =
          text
            "Kalau semua hal di atas terlihat normal tapi status mesin masih WARNING pada inspeksi minggu depan, panggil teknisi.";
      recheck_hours = 168;
      needs_technician = false;
    }
    ∷ record {
      key = text "WARNING|crest_factor|direct-drive|*";
      urgency = text "rencanakan_dalam_7_hari";
      safety_gate =
          text "Matikan mesin dan tunggu impeler berhenti total sebelum memeriksa apa pun.";
      checklist =
          text "Periksa baut dudukan unit motor-blower, kencangkan yang longgar."
          ∷ text
              "Lihat kipas/impeler dari luar (mesin mati): ada kotoran, debu tebal, atau benda asing yang menempel?"
          ∷ text "Bersihkan kisi ventilasi pendingin motor dari debu."
          ∷ text "Raba rumah bearing (mesin mati): terasa jauh lebih panas dari biasanya?"
          ∷ [];
      escalate_if =
          text
            "Kalau semua hal di atas terlihat normal tapi status mesin masih WARNING pada inspeksi minggu depan, panggil teknisi.";
      recheck_hours = 168;
      needs_technician = false;
    }
    ∷ record {
      key = text "WARNING|spectral_centroid|belt|*";
      urgency = text "rencanakan_dalam_7_hari";
      safety_gate =
          text "Matikan mesin dan tunggu impeler berhenti total sebelum memeriksa apa pun.";
      checklist =
          text
            "Periksa ketegangan sabuk - tekan di tengah, lendutan wajar sekitar 1 cm per 100 cm jarak puli."
          ∷ text "Lihat permukaan sabuk: retak, mengkilap, atau serat terkelupas."
          ∷ text "Cek baut dudukan motor dan blower, kencangkan yang longgar."
          ∷ text "Raba rumah bearing (mesin mati): terasa jauh lebih panas dari biasanya?"
          ∷ text "Cium dari jarak aman (mesin mati): ada bau gosong atau hangus di sekitar motor?"
          ∷ text "Raba rumah motor (mesin mati): apakah terasa lebih panas dari biasanya?"
          ∷ [];
      escalate_if =
          text
            "Kalau semua hal di atas terlihat normal tapi status mesin masih WARNING pada inspeksi minggu depan, panggil teknisi.";
      recheck_hours = 168;
      needs_technician = false;
    }
    ∷ record {
      key = text "WARNING|spectral_centroid|direct-coupled|*";
      urgency = text "rencanakan_dalam_7_hari";
      safety_gate =
          text "Matikan mesin dan tunggu impeler berhenti total sebelum memeriksa apa pun.";
      checklist =
          text "Periksa kopling karet penghubung poros motor dan blower: retak atau aus?"
          ∷ text "Putar poros dengan tangan (mesin mati): terasa seret, goyang, atau tidak rata?"
          ∷ text "Cek baut dudukan motor, blower, dan kopling, kencangkan yang longgar."
          ∷ text "Raba rumah bearing (mesin mati): terasa jauh lebih panas dari biasanya?"
          ∷ text "Cium dari jarak aman (mesin mati): ada bau gosong atau hangus di sekitar motor?"
          ∷ text "Raba rumah motor (mesin mati): apakah terasa lebih panas dari biasanya?"
          ∷ [];
      escalate_if =
          text
            "Kalau semua hal di atas terlihat normal tapi status mesin masih WARNING pada inspeksi minggu depan, panggil teknisi.";
      recheck_hours = 168;
      needs_technician = false;
    }
    ∷ record {
      key = text "WARNING|spectral_centroid|direct-drive|*";
      urgency = text "rencanakan_dalam_7_hari";
      safety_gate =
          text "Matikan mesin dan tunggu impeler berhenti total sebelum memeriksa apa pun.";
      checklist =
          text "Periksa baut dudukan unit motor-blower, kencangkan yang longgar."
          ∷ text
              "Lihat kipas/impeler dari luar (mesin mati): ada kotoran, debu tebal, atau benda asing yang menempel?"
          ∷ text "Bersihkan kisi ventilasi pendingin motor dari debu."
          ∷ text "Raba rumah bearing (mesin mati): terasa jauh lebih panas dari biasanya?"
          ∷ text "Cium dari jarak aman (mesin mati): ada bau gosong atau hangus di sekitar motor?"
          ∷ text "Raba rumah motor (mesin mati): apakah terasa lebih panas dari biasanya?"
          ∷ [];
      escalate_if =
          text
            "Kalau semua hal di atas terlihat normal tapi status mesin masih WARNING pada inspeksi minggu depan, panggil teknisi.";
      recheck_hours = 168;
      needs_technician = false;
    }
    ∷ []
