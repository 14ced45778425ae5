-- ===== src/Advisory/Table/WarningUnknown.antt =====
-- internal/advisory/decision_table.json: WARNING by indicator and drive, service date unknown.
use audiax_backend.Common.{false, List, [], ◌∷◌}
use audiax_backend.Common.Text.{text}
use audiax_backend.Advisory.{Cell}

unfoldable pub warning_unknown : List Cell
warning_unknown =
    record {
      key = text "WARNING|kurtosis|belt|tidak-tahu";
      urgency = text "rencanakan_dalam_48_jam";
      safety_gate =
          text "Matikan mesin dan tunggu impeler berhenti total sebelum memeriksa apa pun.";
      checklist =
          text
            "Periksa ketegangan sabuk - tekan di tengah, lendutan wajar sekitar 1 cm per 100 cm jarak puli."
          ∷ text "Lihat permukaan sabuk: retak, mengkilap, atau serat terkelupas."
          ∷ text "Cek baut dudukan motor dan blower, kencangkan yang longgar."
          ∷ text "Raba rumah bearing (mesin mati): terasa jauh lebih panas dari biasanya?"
          ∷ text
              "Dengarkan dari jarak aman saat mesin dinyalakan sebentar: ada bunyi 'klik' atau 'ketuk' berulang?"
          ∷ [];
      escalate_if =
          text
            "Riwayat perawatan mesin ini tidak diketahui, jadi diperlakukan seolah sudah lama tidak dirawat. Kalau semua hal di atas terlihat normal tapi besok statusnya tetap WARNING, panggil teknisi.";
      recheck_hours = 48;
      needs_technician = false;
    }
    ∷ record {
      key = text "WARNING|kurtosis|direct-coupled|tidak-tahu";
      urgency = text "rencanakan_dalam_48_jam";
      safety_gate =
          text "Matikan mesin dan tunggu impeler berhenti total sebelum memeriksa apa pun.";
      checklist =
          text "Periksa kopling karet penghubung poros motor dan blower: retak atau aus?"
          ∷ text "Putar poros dengan tangan (mesin mati): terasa seret, goyang, atau tidak rata?"
          ∷ text "Cek baut dudukan motor, blower, dan kopling, kencangkan yang longgar."
          ∷ text "Raba rumah bearing (mesin mati): terasa jauh lebih panas dari biasanya?"
          ∷ text
              "Dengarkan dari jarak aman saat mesin dinyalakan sebentar: ada bunyi 'klik' atau 'ketuk' berulang?"
          ∷ [];
      escalate_if =
          text
            "Riwayat perawatan mesin ini tidak diketahui, jadi diperlakukan seolah sudah lama tidak dirawat. Kalau semua hal di atas terlihat normal tapi besok statusnya tetap WARNING, panggil teknisi.";
      recheck_hours = 48;
      needs_technician = false;
    }
    ∷ record {
      key = text "WARNING|kurtosis|direct-drive|tidak-tahu";
      urgency = text "rencanakan_dalam_48_jam";
      safety_gate =
          text "Matikan mesin dan tunggu impeler berhenti total sebelum memeriksa apa pun.";
      checklist =
          text "Periksa baut dudukan unit motor-blower, kencangkan yang longgar."
          ∷ text
              "Lihat kipas/impeler dari luar (mesin mati): ada kotoran, debu tebal, atau benda asing yang menempel?"
          ∷ text "Bersihkan kisi ventilasi pendingin motor dari debu."
          ∷ text "Raba rumah bearing (mesin mati): terasa jauh lebih panas dari biasanya?"
          ∷ text
              "Dengarkan dari jarak aman saat mesin dinyalakan sebentar: ada bunyi 'klik' atau 'ketuk' berulang?"
          ∷ [];
      escalate_if =
          text
            "Riwayat perawatan mesin ini tidak diketahui, jadi diperlakukan seolah sudah lama tidak dirawat. Kalau semua hal di atas terlihat normal tapi besok statusnya tetap WARNING, panggil teknisi.";
      recheck_hours = 48;
      needs_technician = false;
    }
    ∷ record {
      key = text "WARNING|crest_factor|belt|tidak-tahu";
      urgency = text "rencanakan_dalam_48_jam";
      safety_gate =
          text "Matikan mesin dan tunggu impeler berhenti total sebelum memeriksa apa pun.";
      checklist =
          text
            "Periksa ketegangan sabuk - tekan di tengah, lendutan wajar sekitar 1 cm per 100 cm jarak puli."
          ∷ text "Lihat permukaan sabuk: retak, mengkilap, atau serat terkelupas."
          ∷ text "Cek baut dudukan motor dan blower, kencangkan yang longgar."
          ∷ text "Raba rumah bearing (mesin mati): terasa jauh lebih panas dari biasanya?"
          ∷ [];
      escalate_if =
          text
            "Riwayat perawatan mesin ini tidak diketahui, jadi diperlakukan seolah sudah lama tidak dirawat. Kalau semua hal di atas terlihat normal tapi besok statusnya tetap WARNING, panggil teknisi.";
      recheck_hours = 48;
      needs_technician = false;
    }
    ∷ record {
      key = text "WARNING|crest_factor|direct-coupled|tidak-tahu";
      urgency = text "rencanakan_dalam_48_jam";
      safety_gate =
          text "Matikan mesin dan tunggu impeler berhenti total sebelum memeriksa apa pun.";
      checklist =
          text "Periksa kopling karet penghubung poros motor dan blower: retak atau aus?"
          ∷ text "Putar poros dengan tangan (mesin mati): terasa seret, goyang, atau tidak rata?"
          ∷ text "Cek baut dudukan motor, blower, dan kopling, kencangkan yang longgar."
          ∷ text "Raba rumah bearing (mesin mati): terasa jauh lebih panas dari biasanya?"
          ∷ [];
      escalate_if =
          text
            "Riwayat perawatan mesin ini tidak diketahui, jadi diperlakukan seolah sudah lama tidak dirawat. Kalau semua hal di atas terlihat normal tapi besok statusnya tetap WARNING, panggil teknisi.";
      recheck_hours = 48;
      needs_technician = false;
    }
    ∷ record {
      key = text "WARNING|crest_factor|direct-drive|tidak-tahu";
      urgency = text "rencanakan_dalam_48_jam";
      safety_gate =
          text "Matikan mesin dan tunggu impeler berhenti total sebelum memeriksa apa pun.";
      checklist =
          text "Periksa baut dudukan unit motor-blower, kencangkan yang longgar."
          ∷ text
              "Lihat kipas/impeler dari luar (mesin mati): ada kotoran, debu tebal, atau benda asing yang menempel?"
          ∷ text "Bersihkan kisi ventilasi pendingin motor dari debu."
          ∷ text "Raba rumah bearing (mesin mati): terasa jauh lebih panas dari biasanya?"
          ∷ [];
      escalate_if =
          text
            "Riwayat perawatan mesin ini tidak diketahui, jadi diperlakukan seolah sudah lama tidak dirawat. Kalau semua hal di atas terlihat normal tapi besok statusnya tetap WARNING, panggil teknisi.";
      recheck_hours = 48;
      needs_technician = false;
    }
    ∷ record {
      key = text "WARNING|spectral_centroid|belt|tidak-tahu";
      urgency = text "rencanakan_dalam_48_jam";
      safety_gate =
          text "Matikan mesin dan tunggu impeler berhenti total sebelum memeriksa apa pun.";
      checklist =
          text
            "Periksa ketegangan sabuk - tekan di tengah, lendutan wajar sekitar 1 cm per 100 cm jarak puli."
          ∷ text "Lihat permukaan sabuk: retak, mengkilap, atau serat terkelupas."
          ∷ text "Cek baut dudukan motor dan blower, kencangkan yang longgar."
          ∷ text "Raba rumah bearing (mesin mati): terasa jauh lebih panas dari biasanya?"
          ∷ text "Cium dari jarak aman (mesin mati): ada bau gosong atau hangus di sekitar motor?"
          ∷ text "Raba rumah motor (mesin mati): apakah terasa lebih panas dari biasanya?"
          ∷ [];
      escalate_if =
          text
            "Riwayat perawatan mesin ini tidak diketahui, jadi diperlakukan seolah sudah lama tidak dirawat. Kalau semua hal di atas terlihat normal tapi besok statusnya tetap WARNING, panggil teknisi.";
      recheck_hours = 48;
      needs_technician = false;
    }
    ∷ record {
      key = text "WARNING|spectral_centroid|direct-coupled|tidak-tahu";
      urgency = text "rencanakan_dalam_48_jam";
      safety_gate =
          text "Matikan mesin dan tunggu impeler berhenti total sebelum memeriksa apa pun.";
      checklist =
          text "Periksa kopling karet penghubung poros motor dan blower: retak atau aus?"
          ∷ text "Putar poros dengan tangan (mesin mati): terasa seret, goyang, atau tidak rata?"
          ∷ text "Cek baut dudukan motor, blower, dan kopling, kencangkan yang longgar."
          ∷ text "Raba rumah bearing (mesin mati): terasa jauh lebih panas dari biasanya?"
          ∷ text "Cium dari jarak aman (mesin mati): ada bau gosong atau hangus di sekitar motor?"
          ∷ text "Raba rumah motor (mesin mati): apakah terasa lebih panas dari biasanya?"
          ∷ [];
      escalate_if =
          text
            "Riwayat perawatan mesin ini tidak diketahui, jadi diperlakukan seolah sudah lama tidak dirawat. Kalau semua hal di atas terlihat normal tapi besok statusnya tetap WARNING, panggil teknisi.";
      recheck_hours = 48;
      needs_technician = false;
    }
    ∷ record {
      key = text "WARNING|spectral_centroid|direct-drive|tidak-tahu";
      urgency = text "rencanakan_dalam_48_jam";
      safety_gate =
          text "Matikan mesin dan tunggu impeler berhenti total sebelum memeriksa apa pun.";
      checklist =
          text "Periksa baut dudukan unit motor-blower, kencangkan yang longgar."
          ∷ text
              "Lihat kipas/impeler dari luar (mesin mati): ada kotoran, debu tebal, atau benda asing yang menempel?"
          ∷ text "Bersihkan kisi ventilasi pendingin motor dari debu."
          ∷ text "Raba rumah bearing (mesin mati): terasa jauh lebih panas dari biasanya?"
          ∷ text "Cium dari jarak aman (mesin mati): ada bau gosong atau hangus di sekitar motor?"
          ∷ text "Raba rumah motor (mesin mati): apakah terasa lebih panas dari biasanya?"
          ∷ [];
      escalate_if =
          text
            "Riwayat perawatan mesin ini tidak diketahui, jadi diperlakukan seolah sudah lama tidak dirawat. Kalau semua hal di atas terlihat normal tapi besok statusnya tetap WARNING, panggil teknisi.";
      recheck_hours = 48;
      needs_technician = false;
    }
    ∷ []
